-- ===== src/Access/Names.antt =====
-- What a validated username is.
use mathlib.Core.Path.{subst}
use data_api.Prelude.{
  none, sym, ◌+◌, ◌&&◌, true, some, map, leb, all, [], ◌≡◌, ◌∷◌, if◌then◌else◌, Bool, All, ℕ,
  Option, refl, ap, ◌∙◌, ◌<◌, arith,
}
use data_api.Text.{strip, Text}
use data_api.Access.Repository.{Change, unset, set}
use data_api.Access.Repository.Keeps.{IsNamedChange}
use data_api.Access.Repository.Table.{is_username_char, IsUsername}
use data_api.Access.Schemas.{Texts, validate_username, validate_change, optional}
use data_api.Dynamic.Names.{is_name_start, is_ascii_digit}
use data_api.Dynamic.Request.{is_prefix_char}
use data_api.Errors.{>>=-eq-ok, Result, ok}
use data_api.Text.Laws.{All-strip, Without}

abbrev pub ascii_lower : ℕ → ℕ
ascii_lower c = if leb b'A' c && leb c b'Z' then c + 32 else c

-- `str.lower` of a text of ASCII characters.
pub record LowersAscii (lower : Text → Text) : Type 0 where
  pub lowers : (s : Text) → All (λ c. c < 128) s → lower s ≡ map ascii_lower s

all-All : (p : ℕ → Bool) (s : Text) → all p s ≡ true → All (λ c. p c ≡ true) s
all-All p [] h = tt
all-All p (c ∷ s) h = (ground (arith, h), all-All p s (ground (arith, h)))

lower_char : (c : ℕ) → is_prefix_char c ≡ true → is_username_char (ascii_lower c) ≡ true
unfolding is_prefix_char is_name_start is_ascii_digit
lower_char c h = ground (arith, h)

ascii_char : (c : ℕ) → is_prefix_char c ≡ true → c < 128
unfolding is_prefix_char is_name_start is_ascii_digit
ascii_char c h = ground (arith, h)

chars-IsUsername :
    (s : Text)
    → All (λ c. is_prefix_char c ≡ true) s
    → All (λ c. c < 128) s × IsUsername (map ascii_lower s)
chars-IsUsername [] h = (tt, tt)
chars-IsUsername (c ∷ s) (h, hs) =
    let (a, b) = chars-IsUsername s hs in ((ascii_char c h, a), (lower_char c h, b))

lower_username_char : (c : ℕ) → is_username_char c ≡ true → (c < 128) × (ascii_lower c ≡ c)
lower_username_char c h = (ground (arith, h), ground (arith, h))

lower_username : (s : Text) → IsUsername s → All (λ c. c < 128) s × (map ascii_lower s ≡ s)
lower_username [] h = (tt, refl)
lower_username (c ∷ s) (h, hs) =
    let (a, b) = lower_username_char c h in
    let (x, y) = lower_username s hs in ((a, x), rw b (ap (λ t. c ∷ t) y))

-- A username is its own lowercase text.
pub lower_username_lem :
    (lower : Text → Text) (s : Text) → LowersAscii lower → IsUsername s → lower s ≡ s
lower_username_lem lower s ascii h = let (a, b) = lower_username s h in ascii.lowers s a ∙ b

-- A username holds no slash.
pub username-Without : (s : Text) → IsUsername s → Without b'/' s
username-Without [] h = tt
username-Without (c ∷ s) (h, hs) = (ground (arith, h), username-Without s hs)

-- A username that is accepted is one of lowercase letters, digits, `_`, `.` and `-`.
pub validate_username-IsUsername :
    (t : Texts) (value n : Text)
    → LowersAscii t.lower
    → validate_username t value ≡ ok n
    → IsUsername n
unfolding validate_username
validate_username-IsUsername t value n ascii e =
    let valid : all is_prefix_char value ≡ true = ground (arith, e) in
    let same : n ≡ t.lower (strip value) = ground (arith, e) in
    let (a, b) =
      chars-IsUsername (strip value)
        (All-strip (λ c. is_prefix_char c ≡ true) value (all-All is_prefix_char value valid)) in
    subst IsUsername (sym (same ∙ ascii.lowers (strip value) a)) b

optional-eq-ok :
    (f : Text → Result Text) (v : Text) (o : Option Text)
    → optional f v ≡ ok o
    → (n : Text) × (f v ≡ ok n) × (o ≡ some n)
optional-eq-ok f v o e =
    let (n, made, same) = >>=-eq-ok (f v) _ e in (n, made, ground (arith, same))

pub validate_change-IsNamedChange :
    (t : Texts) (change change' : Change (Option Text))
    → LowersAscii t.lower
    → validate_change (optional (validate_username t)) change ≡ ok change'
    → IsNamedChange change'
validate_change-IsNamedChange t unset change' ascii e =
    let same : unset ≡ change' = cc in subst IsNamedChange same tt
validate_change-IsNamedChange t (set none) change' ascii e =
    let same : set none ≡ change' = cc in subst IsNamedChange same tt
validate_change-IsNamedChange t (set (some v)) change' ascii e =
    let (o, made, same) = >>=-eq-ok (optional (validate_username t) v) _ e in
    let (n, valid, some_n) = optional-eq-ok (validate_username t) v o made in
    let whole : set (some n) ≡ change' = ground (arith, same, some_n) in
    subst IsNamedChange whole (validate_username-IsUsername t v n ascii valid)
