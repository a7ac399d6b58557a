-- ===== src/Text.antt =====
-- Python's `str` as the list of its code points, and the methods of `str` that the program calls.
pub mod Sort
pub mod Laws
use Prim.Native.Char.{code}
use data_api.Prelude.{
  ℕ, ◌≡◌, ◌↔◌, refl, Bool, true, false, ◌&&◌, ◌||◌, List, [], ◌∷◌, reverse, arith, leb, ◌==◌,
  if◌then◌else◌, String,
}

abbrev pub Text : Type 0
Text = List ℕ

-- The code points of a literal.
abbrev pub codes : String → Text
codes String.[] = []
codes (String.◌∷◌ c s) = code c ∷ codes s

-- a == b
unfoldable pub eq_text : Text → Text → Bool
eq_text [] [] = true
eq_text (a ∷ s) (b ∷ t) = a == b && eq_text s t
eq_text _ _ = false

-- str.isspace of one character
unfoldable pub is_space : ℕ → Bool
is_space c =
    (leb 9 c && leb c 13)
    || (leb 28 c && leb c 32)
    || c == 0x85
    || c == 0xa0
    || c == 0x1680
    || (leb 0x2000 c && leb c 0x200a)
    || c == 0x2028
    || c == 0x2029
    || c == 0x202f
    || c == 0x205f
    || c == 0x3000

-- The loop of `lstrip`: leading characters that pass the test are dropped.
unfoldable pub lstrip_by : (ℕ → Bool) → Text → Text
lstrip_by p [] = []
lstrip_by p (c ∷ s) = let rest = lstrip_by p s in if p c then rest else c ∷ s

abbrev pub cons_kept : (ℕ → Bool) → ℕ → Text → Text
cons_kept p c [] = if p c then [] else c ∷ []
cons_kept p c (d ∷ t) = c ∷ d ∷ t

-- The loop of `rstrip`: trailing characters that pass the test are dropped.
unfoldable pub rstrip_by : (ℕ → Bool) → Text → Text
rstrip_by p [] = []
rstrip_by p (c ∷ s) = cons_kept p c (rstrip_by p s)

-- s.strip()
unfoldable pub strip : Text → Text
strip s = rstrip_by is_space (lstrip_by is_space s)

-- s.rstrip(c) for one character
unfoldable pub rstrip_char : ℕ → Text → Text
rstrip_char c s = rstrip_by (λ x. x == c) s

abbrev pub push_head : ℕ → List Text → List Text
push_head c [] = (c ∷ []) ∷ []
push_head c (p ∷ ps) = (c ∷ p) ∷ ps

-- s.split(sep) for one character
unfoldable pub split : ℕ → Text → List Text
split sep [] = [] ∷ []
split sep (c ∷ s) = let ps = split sep s in if c == sep then [] ∷ ps else push_head c ps

-- s.startswith(t)
unfoldable pub starts_with : Text → Text → Bool
starts_with s [] = true
starts_with [] (b ∷ t) = false
starts_with (a ∷ s) (b ∷ t) = a == b && starts_with s t

-- s.endswith(t)
unfoldable pub ends_with : Text → Text → Bool
ends_with s t = starts_with (reverse s) (reverse t)

pub eq_text_refl : (s : Text) → eq_text s s ≡ true
unfolding eq_text
eq_text_refl [] = refl
eq_text_refl (c ∷ s) = ground (arith, eq_text_refl s)

pub eq_text→eq : (s t : Text) → eq_text s t ≡ true → s ≡ t
unfolding eq_text
eq_text→eq [] [] h = refl
eq_text→eq (a ∷ s) (b ∷ t) h = ground (arith, eq_text→eq s t)
eq_text→eq [] (b ∷ t) h = cc
eq_text→eq (a ∷ s) [] h = cc

pub eq_text_iff : (s t : Text) → (eq_text s t ≡ true) ↔ (s ≡ t)
eq_text_iff s t = (eq_text→eq s t, λ e. rw (← e) (eq_text_refl s))
