-- ===== src/Access/InitialAdmin/Again.antt =====
-- What a run of the script leaves, and what a second run does.
use mathlib.Core.Path.{subst}
use data_api.Prelude.{sym, ap, true, Option, none, some, keep, ◌≡◌, refl}
use data_api.Text.{Text}
use data_api.Access.InitialAdmin.{
  default_admin_email, create_initial_admin, initial_admin, get_admin_user, create_or_promote,
  unless_admin, or_by_username, new_admin, promotion, first,
}
use data_api.Access.InitialAdmin.Leaves.{
  Leaves, bind-Leaves, then_pure-Leaves, lift-Leaves, create_user-Leaves, update_user-Leaves,
  create_role, update_role,
}
use data_api.Access.InitialAdmin.Rows.{has_admin-first, first-has_admin, has_admin}
use data_api.Access.Repository.{get_by_email, UserTable, rollback, in_session}
use data_api.Access.Schemas.{validate_user_create, validate_user_admin_update, Texts}
use data_api.Access.Security.{Settings, Crypto}
use data_api.Access.Users.{User, is_admin}
use data_api.Errors.{ok}

module _ (t : Texts) (c : Crypto) (settings : Settings) (password : Text) where
  create_or_promote-Leaves : (o : Option User) → Leaves (create_or_promote t c settings password o)
  unfolding create_or_promote
  create_or_promote-Leaves none =
      lift-Leaves (validate_user_create t (new_admin t c settings password)) _ (λ p e.
        create_user-Leaves c settings p
          (ap is_admin (sym (create_role t (new_admin t c settings password) p e))))
  create_or_promote-Leaves (some u) =
      lift-Leaves (validate_user_admin_update t (promotion t c settings password)) _ (λ p e.
        update_user-Leaves c settings u.id p
          (sym (update_role t (promotion t c settings password) p e)))

  unless_admin-Leaves : Leaves (unless_admin t c settings password none)
  unfolding unless_admin
  unless_admin-Leaves = bind-Leaves (get_by_email c.lower default_admin_email) _ (λ by_email.
      bind-Leaves (or_by_username t c settings password by_email) _ (λ existing.
        then_pure-Leaves (create_or_promote t c settings password existing) some
          (create_or_promote-Leaves existing)))

  -- with an administrator committed, the script changes nothing
  skipped :
      (w : UserTable)
      → has_admin w.committed ≡ true
      → initial_admin t c settings password (rollback w) ≡ (ok none, rollback w)
  unfolding initial_admin create_initial_admin get_admin_user unless_admin in_session rollback
  skipped w h = let (u, e) = has_admin-first w.committed h in rw e refl

  leaves_admin :
      (w : UserTable) (o made : Option User)
      → w.session ≡ w.committed
      → first (keep (λ u. is_admin u.role) w.session) ≡ o
      → (unless_admin t c settings password o w).0 ≡ ok made
      → has_admin (unless_admin t c settings password o w).1.committed ≡ true
  unfolding unless_admin
  leaves_admin w none made e f h = unless_admin-Leaves.leaves w made h
  leaves_admin w (some u) made e f h =
      subst (λ rows. has_admin rows ≡ true) e (first-has_admin w.session u f)

module _ (t : Texts) (c : Crypto) (settings : Settings) (password : Text) where
  -- A run of the script that returns leaves an administrator committed, and no change pending; and a run after it,
  -- with whatever password, returns without an administrator of its own, and changes nothing.
  pub initial_admin-initial_admin :
      (w : UserTable) (again : Text) (made : Option User)
      → w.session ≡ w.committed
      → (initial_admin t c settings password w).0 ≡ ok made
      → (has_admin (initial_admin t c settings password w).1.committed ≡ true)
        × (initial_admin t c settings again (initial_admin t c settings password w).1
            ≡ (ok none, (initial_admin t c settings password w).1))
  unfolding initial_admin create_initial_admin get_admin_user in_session rollback
  initial_admin-initial_admin w again made e h =
      let made_admin = leaves_admin t c settings password w _ made e refl h in
      (
        made_admin,
        skipped t c settings again (create_initial_admin t c settings password w).1 made_admin,
      )
