-- ===== src/Access/Endpoints/Owners.antt =====
-- Whose a data route is: the permission check over the tables that requests can reach.
use mathlib.Core.Path.{subst}
use data_api.Prelude.{
  [], ◌∷◌, true, All, false, List, ℕ, ◌≡◌, ◌++◌, sym, ap, ◌∙◌, arith, Any, here, there,
}
use data_api.Text.{eq_text_iff, Text}
use data_api.Access.Endpoints.Reachable.{Reach, IsSound, Reach-IsSound}
use data_api.Access.Names.{LowersAscii, lower_username_lem, username-Without}
use data_api.Access.Permission.{check_api_permission}
use data_api.Access.Permission.Exclusive.{check_api_permission-IsExclusive}
use data_api.Access.Repository.{UserTable}
use data_api.Access.Repository.Table.{Apart, IsUnique, IsRow}
use data_api.Access.Schemas.{Texts}
use data_api.Access.Security.{Settings, Crypto}
use data_api.Access.Users.{User, is_admin}
use data_api.Text.Laws.{Without}
use data_api.Value.{Runtime}

-- The user is a row.
abbrev pub IsRowOf : User → List User → Type 0
IsRowOf u rows = Any (λ r. r ≡ u) rows

rows-IsRow : (n : ℕ) (u : User) (rows : List User) → All (IsRow n) rows → IsRowOf u rows → IsRow n u
rows-IsRow n u [] h m = elim m [ ]
rows-IsRow n u (r ∷ rows) (h, hs) (here e) = subst (IsRow n) e h
rows-IsRow n u (r ∷ rows) (h, hs) (there m) = rows-IsRow n u rows hs m

rows-Apart : (r v : User) (rows : List User) → All (Apart r) rows → IsRowOf v rows → Apart r v
rows-Apart r v [] h m = elim m [ ]
rows-Apart r v (s ∷ rows) (h, hs) (here e) = subst (Apart r) e h
rows-Apart r v (s ∷ rows) (h, hs) (there m) = rows-Apart r v rows hs m

clash : (x y : User) → Apart x y → x.username ≡ y.username → ⊥
clash x y (i, k) e = ground (arith, eq_text_iff x.username y.username, k, e)

-- Rows with the same name are the same row.
same_row :
    (u v : User) (rows : List User)
    → IsUnique rows
    → IsRowOf u rows
    → IsRowOf v rows
    → u.username ≡ v.username
    → u ≡ v
same_row u v [] h m k same = elim m [ ]
same_row u v (r ∷ rows) (a, un) (here e) (here f) same = sym e ∙ f
same_row u v (r ∷ rows) (a, un) (there m) (there k) same = same_row u v rows un m k same
same_row u v (r ∷ rows) (a, un) (here e) (there k) same =
    absurd (clash r v (rows-Apart r v rows a k) (ap (λ x. x.username) e ∙ same))
same_row u v (r ∷ rows) (a, un) (there m) (here f) same =
    absurd (clash r u (rows-Apart r u rows a m) (ap (λ x. x.username) f ∙ sym same))

-- In every table that requests, runs of the script that makes the first administrator, and other processes can
-- reach from a sound one, as long as every name that those processes write has only the characters of a name, a
-- data route is permitted to one user at most who is no admin. A run of scripts/create_power_bi_user.sh, which
-- validates no name, is not among these processes. `lower` maps ASCII text as `str.lower` does.
pub check_api_permission_unique :
    (t : Texts) (c : Crypto) (settings : Settings) (rt : Runtime) (w x : UserTable) (u v : User)
    (path : Text)
    → LowersAscii t.lower
    → LowersAscii rt.lower
    → IsSound w
    → Reach t c settings w x
    → IsRowOf u (x.committed ++ x.others)
    → IsRowOf v (x.committed ++ x.others)
    → is_admin u.role ≡ false
    → is_admin v.role ≡ false
    → (check_api_permission rt u path).0 ≡ true
    → (check_api_permission rt v path).0 ≡ true
    → u ≡ v
check_api_permission_unique t c settings rt w x u v path ascii ascii' h r mu mv au av pu pv =
    let (settled, (unique, rows)) = Reach-IsSound t c settings ascii r h in
    let (iu, nu) = rows-IsRow x.next_id u (x.committed ++ x.others) rows mu in
    let (iv, nv) = rows-IsRow x.next_id v (x.committed ++ x.others) rows mv in
    let lu = lower_username_lem rt.lower u.username ascii' nu in
    let lv = lower_username_lem rt.lower v.username ascii' nv in
    let same : rt.lower u.username ≡ rt.lower v.username =
      check_api_permission-IsExclusive rt u v path au av
        (subst (Without b'/') (sym lu) (username-Without u.username nu))
        (subst (Without b'/') (sym lv) (username-Without v.username nv)) pu pv in
    same_row u v (x.committed ++ x.others) unique mu mv (sym lu ∙ same ∙ lv)
