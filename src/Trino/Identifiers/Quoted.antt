-- ===== src/Trino/Identifiers/Quoted.antt =====
-- What SQL reads in a quoted path.
use mathlib.Core.List.{append-nil, append_assoc}
use data_api.Prelude.{
  inr, ◌⊎◌, inl, ◌||◌, Bool-cases, ℕ, ◌==◌, true, false, all, Option, none, some, List, map, [],
  ◌∷◌, ◌++◌, ◌≡◌, refl, sym, ap, ◌∙◌, arith, if◌then◌else◌,
}
use data_api.Text.{push_head, Text, split}
use data_api.Dynamic.Names.{is_ascii_digit, is_name_start, is_parameter_name}
use data_api.Errors.{value_error, ok, err}
use data_api.Text.Laws.{Without, join}
use data_api.Trino.Identifiers.{is_identifier_path, quote, quote_identifier_path}

-- Where a reader of quoted identifiers is: before one, within one, behind one.
pub data Place : Type 0 where
  before : Place
  within : Text → Place
  behind : Text → Place

abbrev pub then_parts : Text → Option (List Text) → Option (List Text)
then_parts part none = none
then_parts part (some parts) = some (part ∷ parts)

-- The identifiers between quotation marks, with dots between them; `none` where a text is no such path.
unfoldable pub read : Place → Text → Option (List Text)
read before [] = none
read before (c ∷ s) = let rest = read (within []) s in if c == b'"' then rest else none
read (within part) [] = none
read (within part) (c ∷ s) =
    let closed = read (behind part) s in
    let rest = read (within (part ++ c ∷ [])) s in if c == b'"' then closed else rest
read (behind part) [] = some (part ∷ [])
read (behind part) (c ∷ s) =
    let rest = read before s in if c == b'.' then then_parts part rest else none

read-within :
    (part p rest : Text)
    → Without b'"' p
    → read (within part) (p ++ b'"' ∷ rest) ≡ read (behind (part ++ p)) rest
unfolding read
read-within part [] rest h = ap (λ t. read (behind t) rest) (sym (append-nil part))
read-within part (c ∷ p) rest (h, hs) = rw h (
    read-within (part ++ c ∷ []) p rest hs
    ∙ ap (λ t. read (behind t) rest) (append_assoc part (c ∷ []) p))

name_char-Without :
    (s : Text) → all (λ d. is_name_start d || is_ascii_digit d) s ≡ true → Without b'"' s
unfolding is_name_start is_ascii_digit
name_char-Without [] h = tt
name_char-Without (c ∷ s) h = (ground (arith, h), name_char-Without s (ground (arith, h)))

name-Without : (p : Text) → is_parameter_name p ≡ true → Without b'"' p
unfolding is_parameter_name is_name_start is_ascii_digit
name-Without [] h = tt
name-Without (c ∷ s) h = (ground (arith, h), name_char-Without s (ground (arith, h)))

-- One quoted name, and what is behind it.
read-quote :
    (p rest : Text)
    → is_parameter_name p ≡ true
    → read before (quote p ++ rest) ≡ read (behind p) rest
unfolding read
read-quote p rest h =
    ap (λ t. read (within []) t) (append_assoc p (b'"' ∷ []) rest)
    ∙ read-within [] p rest (name-Without p h)

read-join :
    (p : Text) (ps : List Text)
    → all is_parameter_name (p ∷ ps) ≡ true
    → read before (join b'.' (map quote (p ∷ ps))) ≡ some (p ∷ ps)
unfolding read
read-join p [] h =
    ap (λ t. read before t) (sym (append-nil (quote p))) ∙ read-quote p [] (ground (arith, h))
read-join p (q ∷ ps) h =
    read-quote p (b'.' ∷ join b'.' (map quote (q ∷ ps))) (ground (arith, h))
    ∙ ap (then_parts p) (read-join q ps (ground (arith, h)))

push_head_cons :
    (c : ℕ) (ps : List Text) → (q : Text) × (qs : List Text) × (push_head c ps ≡ q ∷ qs)
push_head_cons c [] = (c ∷ [], [], refl)
push_head_cons c (p ∷ ps) = (c ∷ p, ps, refl)

split_cons : (sep : ℕ) (s : Text) → (p : Text) × (ps : List Text) × (split sep s ≡ p ∷ ps)
unfolding split
split_cons sep [] = ([], [], refl)
split_cons sep (c ∷ s) = elim (Bool-cases (c == sep)) [
  | inl e ↦ rw e ([], split sep s, refl)
  | inr e ↦ rw e (push_head_cons c (split sep s))
]

-- A path that is quoted reads in SQL as its parts, whatever they are; a path that is none is refused
-- with a ValueError.
pub quote_identifier_path_lem :
    (s : Text)
    → (is_identifier_path s ≡ false) × (quote_identifier_path s ≡ err value_error)
      ⊎ (q : Text) × (quote_identifier_path s ≡ ok q) × (read before q ≡ some (split b'.' s))
unfolding quote_identifier_path is_identifier_path
quote_identifier_path_lem s = elim (Bool-cases (all is_parameter_name (split b'.' s))) [
  | inl e ↦
      let (p, ps, parts) = split_cons b'.' s in
      inr (
        join b'.' (map quote (split b'.' s)),
        rw e refl,
        rw parts (read-join p ps (sym (ap (all is_parameter_name) parts) ∙ e)),
      )
  | inr e ↦ inl (e, rw e refl)
]
