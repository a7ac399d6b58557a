-- ===== src/Dynamic/Safety/Placeholders.antt =====
-- The substitution of `%(name)s` by `:name` in app/services/query_engine/sql_safety.py.
use data_api.Prelude.{
  ℕ, zero, suc, Bool, ◌&&◌, ◌||◌, Option, none, some, [], ◌∷◌, ◌++◌, length, ◌==◌, if◌then◌else◌,
}
use data_api.Text.{Text}
use data_api.Dynamic.Names.{is_ascii_digit, is_name_start}

abbrev pub is_name_char : ℕ → Bool
is_name_char c = is_name_start c || is_ascii_digit c

-- [A-Za-z0-9_]*, and the rest
unfoldable pub name_run : Text → Text × Text
name_run [] = ([], [])
name_run (c ∷ s) =
    let (run, rest) = name_run s in if is_name_char c then (c ∷ run, rest) else ([], c ∷ s)

-- `)s` behind a name
unfoldable pub after_name : Text → Text → Option (Text × Text)
after_name found (a ∷ b ∷ rest) = if a == b')' && b == b's' then some (found, rest) else none
after_name found _ = none

unfoldable pub name_and_end : Text → Option (Text × Text)
unfolding name_run after_name
name_and_end [] = none
name_and_end (c ∷ s) =
    if is_name_start c then after_name (c ∷ (name_run s).0) (name_run s).1 else none

-- A match of the expression at the start of a text: the name, and the text behind the match.
unfoldable pub match_placeholder : Text → Option (Text × Text)
unfolding name_and_end
match_placeholder (a ∷ b ∷ s) = if a == b'%' && b == b'(' then name_and_end s else none
match_placeholder _ = none

-- `re.sub`, on fuel that the length of the text bounds: each round drops a character.
unfoldable pub substitute : ℕ → Text → Text
unfolding match_placeholder
substitute zero s = s
substitute (suc fuel) [] = []
substitute (suc fuel) (c ∷ s) = elim (match_placeholder (c ∷ s)) [
  | none ↦ c ∷ substitute fuel s
  | some m ↦ b':' ∷ (m.0 ++ substitute fuel m.1)
]

unfoldable pub colon_parameters : Text → Text
unfolding substitute
colon_parameters s = substitute (length s) s
