-- ===== src/Pii/AccountMap/Refines.antt =====
-- The account map as its clients see it: what each token stands for.
use data_api.Prelude.{ℕ, Option, none, some, List, [], ◌∷◌, ◌≡◌, refl, ap, ◌∙◌, if◌then◌else◌}
use data_api.Text.{Text, eq_text}
use data_api.Dict.{get, get-put}
use data_api.Pii.AccountMap.{
  PiiMappingRecord, AccountMapInMemory, update_last_synced_at, add_record, add_records, clear,
}
use data_api.Pii.AccountMap.Laws.{latest, get-add_records, token_to_value-add_record}

-- A call of one of the methods that change the map.
pub data Operation : Type 0 where
  added : PiiMappingRecord → Operation
  all_added : List PiiMappingRecord → Operation
  cleared : Operation
  synced : ℕ → Operation

abbrev pub apply : Operation → AccountMapInMemory → AccountMapInMemory
unfolding add_record add_records clear update_last_synced_at
apply (added r) m = add_record m r
apply (all_added rs) m = add_records m rs
apply cleared m = clear m
apply (synced at) m = update_last_synced_at m at

unfoldable pub apply_all : List Operation → AccountMapInMemory → AccountMapInMemory
unfolding apply
apply_all [] m = m
apply_all (o ∷ os) m = apply_all os (apply o m)

-- The specification: what a token stands for after a call, from what it stood for before.
abbrev pub stands_for : Operation → Text → Option Text → Option Text
stands_for (added r) t old = if eq_text r.token t then some r.mapped_value else old
stands_for (all_added rs) t old = latest rs t old
stands_for cleared t old = none
stands_for (synced at) t old = old

abbrev pub all_stand_for : List Operation → Text → Option Text → Option Text
all_stand_for [] t old = old
all_stand_for (o ∷ os) t old = all_stand_for os t (stands_for o t old)

get-apply :
    (o : Operation) (m : AccountMapInMemory) (t : Text)
    → get (apply o m).token_to_value t ≡ stands_for o t (get m.token_to_value t)
unfolding apply clear update_last_synced_at get
get-apply (added r) m t =
    ap (λ d. get d t) (token_to_value-add_record m r)
    ∙ get-put m.token_to_value r.token t r.mapped_value
get-apply (all_added rs) m t = get-add_records m rs t
get-apply cleared m t = refl
get-apply (synced at) m t = refl

-- After any calls in any order, looking up a token gives what it stands for by the specification, which
-- knows neither of the reverse table nor of the time stamp.
pub get-apply_all :
    (os : List Operation) (m : AccountMapInMemory) (t : Text)
    → get (apply_all os m).token_to_value t ≡ all_stand_for os t (get m.token_to_value t)
unfolding apply_all
get-apply_all [] m t = refl
get-apply_all (o ∷ os) m t =
    get-apply_all os (apply o m) t ∙ ap (all_stand_for os t) (get-apply o m t)
