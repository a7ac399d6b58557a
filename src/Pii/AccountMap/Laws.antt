-- ===== src/Pii/AccountMap/Laws.antt =====
-- What the account map holds after records have been added.
use data_api.Prelude.{
  ℕ, ◌≡◌, refl, ap, Option, none, some, List, [], ◌∷◌, ◌≤◌, ◌++◌, All, arith, if◌then◌else◌, ◌∙◌,
}
use data_api.Text.{Text, eq_text, eq_text_iff}
use data_api.Dict.{get, put, get-put}
use data_api.Pii.AccountMap.{
  PiiMappingRecord, AccountMapInMemory, update_last_synced_at, add_record, add_records,
}

-- The value of the last record with this token, or else an older value.
abbrev pub latest : List PiiMappingRecord → Text → Option Text → Option Text
latest [] t old = old
latest (r ∷ rs) t old = latest rs t (if eq_text r.token t then some r.mapped_value else old)

pub token_to_value-add_record :
    (m : AccountMapInMemory) (r : PiiMappingRecord)
    → (add_record m r).token_to_value ≡ put m.token_to_value r.token r.mapped_value
unfolding add_record update_last_synced_at
token_to_value-add_record m r = ground arith

pub value_to_token-add_record :
    (m : AccountMapInMemory) (r : PiiMappingRecord)
    → (add_record m r).value_to_token ≡ put m.value_to_token r.mapped_value r.token
unfolding add_record update_last_synced_at
value_to_token-add_record m r = ground arith

-- After records are added, a token is looked up as the last record with it, and as before if there
-- is none.
pub get-add_records :
    (m : AccountMapInMemory) (rs : List PiiMappingRecord) (t : Text)
    → get (add_records m rs).token_to_value t ≡ latest rs t (get m.token_to_value t)
unfolding add_records
get-add_records m [] t = refl
get-add_records m (r ∷ rs) t =
    get-add_records (add_record m r) rs t
    ∙ ap (latest rs t)
        (rw token_to_value-add_record (get-put m.token_to_value r.token t r.mapped_value))

-- Every entry of one map is an entry of the other, reversed.
pub record IsInverse (m : AccountMapInMemory) : Type 0 where
  pub forth : (t v : Text) → get m.token_to_value t ≡ some v → get m.value_to_token v ≡ some t
  pub back : (t v : Text) → get m.value_to_token v ≡ some t → get m.token_to_value t ≡ some v

-- The record contradicts no entry: its token and its value are both new, or are mapped to each
-- other.
pub record Agrees (m : AccountMapInMemory) (r : PiiMappingRecord) : Type 0 where
  pub of_token : (v : Text) → get m.token_to_value r.token ≡ some v → v ≡ r.mapped_value
  pub of_value : (t : Text) → get m.value_to_token r.mapped_value ≡ some t → t ≡ r.token

-- Adding a record that contradicts no entry of a map whose two tables are inverse to each other keeps
-- them inverse.
pub add_record-IsInverse :
    (m : AccountMapInMemory) (r : PiiMappingRecord)
    → IsInverse m
    → Agrees m r
    → IsInverse (add_record m r)
add_record-IsInverse m r inv ok = record {
  forth = λ t v h. rw value_to_token-add_record (
      rw get-put (
        ground (
          arith,
          eq_text_iff r.token t,
          eq_text_iff r.mapped_value v,
          inv.forth t v,
          ok.of_value t,
          get_put_token t v h,
        )));
  back = λ t v h. rw token_to_value-add_record (
      rw get-put (
        ground (
          arith,
          eq_text_iff r.token t,
          eq_text_iff r.mapped_value v,
          inv.back t v,
          ok.of_token v,
          get_put_value t v h,
        )));
}
  where
    get_put_token :
        (t v : Text)
        → get (add_record m r).token_to_value t ≡ some v
        → (if eq_text r.token t then some r.mapped_value else get m.token_to_value t) ≡ some v
    get_put_token t v h =
        rw (← get-put m.token_to_value r.token t r.mapped_value)
          (rw (← token_to_value-add_record m r) h)

    get_put_value :
        (t v : Text)
        → get (add_record m r).value_to_token v ≡ some t
        → (if eq_text r.mapped_value v then some r.token else get m.value_to_token v) ≡ some t
    get_put_value t v h =
        rw (← get-put m.value_to_token r.mapped_value v r.token)
          (rw (← value_to_token-add_record m r) h)

-- `none` stands before every time.
abbrev pub NotAfter : Option ℕ → Option ℕ → Type 0
NotAfter none b = Unit
NotAfter (some a) none = ⊥
NotAfter (some a) (some b) = a ≤ b

pub NotAfter-trans : (a b c : Option ℕ) → NotAfter a b → NotAfter b c → NotAfter a c
NotAfter-trans none b c h k = tt
NotAfter-trans (some a) (some b) (some c) h k = omega arith
NotAfter-trans (some a) none c h k = elim h [ ]
NotAfter-trans (some a) (some b) none h k = elim k [ ]

last_synced_at-add_record :
    (m : AccountMapInMemory) (r : PiiMappingRecord)
    → NotAfter m.last_synced_at (add_record m r).last_synced_at
      × NotAfter r.created_at (add_record m r).last_synced_at
unfolding add_record update_last_synced_at
last_synced_at-add_record m r = split_stamp m.last_synced_at r.created_at refl refl
  where
    split_stamp :
        (l c : Option ℕ)
        → m.last_synced_at ≡ l
        → r.created_at ≡ c
        → NotAfter m.last_synced_at (add_record m r).last_synced_at
          × NotAfter r.created_at (add_record m r).last_synced_at
    split_stamp none none p q = rw (p, q) (tt, tt)
    split_stamp none (some c) p q = rw (p, q) (ground arith)
    split_stamp (some l) none p q = rw (p, q) (ground arith)
    split_stamp (some l) (some c) p q = rw (p, q) (ground arith)

-- Adding records never moves the time stamp back, and it ends at or after each of theirs.
pub last_synced_at-add_records :
    (m : AccountMapInMemory) (rs : List PiiMappingRecord)
    → NotAfter m.last_synced_at (add_records m rs).last_synced_at
      × All (λ r. NotAfter r.created_at (add_records m rs).last_synced_at) rs
unfolding add_records
last_synced_at-add_records m [] = (NotAfter_refl m.last_synced_at, tt)
  where
    NotAfter_refl : (a : Option ℕ) → NotAfter a a
    NotAfter_refl none = tt
    NotAfter_refl (some a) = omega arith
last_synced_at-add_records m (r ∷ rs) =
    let (old, new) = last_synced_at-add_record m r in
    let (later, each) = last_synced_at-add_records (add_record m r) rs in
    (
      NotAfter-trans _ (add_record m r).last_synced_at _ old later,
      (NotAfter-trans _ (add_record m r).last_synced_at _ new later, each),
    )

pub add_records-append :
    (m : AccountMapInMemory) (rs ss : List PiiMappingRecord)
    → add_records m (rs ++ ss) ≡ add_records (add_records m rs) ss
unfolding add_records
add_records-append m [] ss = refl
add_records-append m (r ∷ rs) ss = add_records-append (add_record m r) rs ss
