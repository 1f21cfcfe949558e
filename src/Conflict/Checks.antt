-- ===== src/Conflict/Checks.antt =====
-- What the conflict checks decide, and what the router finds.
use zan_redis_db.Prelude.{
  ℕ, ◌≡◌, ◌↔◌, ◌≢◌, refl, ap, arith, true, false, Option, none, some, List, [], ◌∷◌, if◌then◌else◌,
  All, Bool-cases, inl, inr, sym, ◌∙◌,
}
use zan_redis_db.Result.{ok}
use zan_redis_db.Bytes.{Bytes, lt_int64, eq_bytes, eq_bytes_sound}
use zan_redis_db.Conflict.{
  no_conflict, VersionStore, arg_one, args_from_one, args_from_two, check_pairs, check_fields,
  check_switched, check_kv_kv_conflict, check_hash_kfv_conflict, check_hash_kff_conflict,
  check_list_conflict, ConflictCheckFunc, ConflictRouter, find_check, get_handler, register,
  add_check, to_lower,
}

-- Every key at an even position that has a value behind it.
unfoldable pub pair_keys : List Bytes → List Bytes
pair_keys (k ∷ v ∷ kvs) = k ∷ pair_keys kvs
pair_keys (k ∷ []) = []
pair_keys [] = []

abbrev pub AllOlder : (Bytes → ℕ) → ℕ → List Bytes → Type 0
AllOlder ver req_ts ks = All (λ k. lt_int64 (ver k) req_ts ≡ true) ks

check_pairs_iff :
    (ver : Bytes → ℕ) (req_ts : ℕ) (kvs : List Bytes)
    → (check_pairs ver req_ts kvs ≡ no_conflict) ↔ AllOlder ver req_ts (pair_keys kvs)
unfolding check_pairs pair_keys
check_pairs_iff ver req_ts [] = ((λ h. tt), (λ h. refl))
check_pairs_iff ver req_ts (k ∷ []) = ((λ h. tt), (λ h. refl))
check_pairs_iff ver req_ts (k ∷ v ∷ kvs) =
    let (to, from) = check_pairs_iff ver req_ts kvs in
    elim (Bool-cases (lt_int64 (ver k) req_ts)) [
      | inl h ↦ rw h ((λ e. (refl, to e)), (λ a. from (a.1)))
      | inr h ↦ rw h ((λ e. ground arith), (λ a. ground arith))
    ]

check_fields_iff :
    (ver : Bytes → ℕ) (req_ts : ℕ) (fields : List Bytes)
    → (check_fields ver req_ts fields ≡ no_conflict) ↔ AllOlder ver req_ts fields
unfolding check_fields
check_fields_iff ver req_ts [] = ((λ h. tt), (λ h. refl))
check_fields_iff ver req_ts (f ∷ fields) =
    let (to, from) = check_fields_iff ver req_ts fields in
    elim (Bool-cases (lt_int64 (ver f) req_ts)) [
      | inl h ↦ rw h ((λ e. (refl, to e)), (λ a. from (a.1)))
      | inr h ↦ rw h ((λ e. ground arith), (λ a. ground arith))
    ]

-- A synced MSET passes exactly if every key it sets was last written before the request.
pub check_kv_kv_conflict_iff :
    (store : VersionStore) (name : Bytes) (kvs : List Bytes) (req_ts : ℕ)
    → (check_kv_kv_conflict store (name ∷ kvs) req_ts ≡ ok no_conflict)
      ↔ AllOlder store.kv_get_ver req_ts (pair_keys kvs)
unfolding check_kv_kv_conflict args_from_one
check_kv_kv_conflict_iff store name kvs req_ts =
    let (to, from) = check_pairs_iff store.kv_get_ver req_ts kvs in
    ((λ e. to (cc)), (λ a. ap ok (from a)))

-- A synced HMSET passes exactly if every field it sets was last written before the request.
pub check_hash_kfv_conflict_iff :
    (store : VersionStore) (name key : Bytes) (fvs : List Bytes) (req_ts : ℕ)
    → (check_hash_kfv_conflict store (name ∷ key ∷ fvs) req_ts ≡ ok no_conflict)
      ↔ AllOlder (store.h_get_ver key) req_ts (pair_keys fvs)
unfolding check_hash_kfv_conflict args_from_two arg_one
check_hash_kfv_conflict_iff store name key fvs req_ts =
    let (to, from) = check_pairs_iff (store.h_get_ver key) req_ts fvs in
    ((λ e. to (cc)), (λ a. ap ok (from a)))

-- A synced HDEL passes exactly if every field it names was last written before the request.
pub check_hash_kff_conflict_iff :
    (store : VersionStore) (name key : Bytes) (fields : List Bytes) (req_ts : ℕ)
    → (check_hash_kff_conflict store (name ∷ key ∷ fields) req_ts ≡ ok no_conflict)
      ↔ AllOlder (store.h_get_ver key) req_ts fields
unfolding check_hash_kff_conflict args_from_two arg_one
check_hash_kff_conflict_iff store name key fields req_ts =
    let (to, from) = check_fields_iff (store.h_get_ver key) req_ts fields in
    ((λ e. to (cc)), (λ a. ap ok (from a)))

-- A synced list write passes exactly if the list was last written before the request, and before
-- this cluster was switched to take writes.
pub check_list_conflict_iff :
    (store : VersionStore) (name key : Bytes) (args : List Bytes) (req_ts : ℕ)
    → (check_list_conflict store (name ∷ key ∷ args) req_ts ≡ ok no_conflict) ↔ (
        (lt_int64 (store.l_ver key) req_ts ≡ true)
        × (lt_int64 (store.l_ver key) store.synced_only_changed_ts ≡ true))
unfolding check_list_conflict arg_one check_switched
check_list_conflict_iff store name key args req_ts = ground arith

added :
    (r : ConflictRouter) (name spelling : Bytes) (f : ConflictCheckFunc)
    → get_handler (add_check none r name f).1 spelling
      ≡ (if eq_bytes name (to_lower spelling) then some f else get_handler r spelling)
unfolding get_handler add_check find_check
added r name spelling f = refl

-- A check that is registered under a lower-case name that is free is found under every spelling of
-- that name, and changes nothing for the other names.
pub get_handler-register :
    (r : ConflictRouter) (name spelling : Bytes) (f : ConflictCheckFunc)
    → to_lower name ≡ name
    → get_handler r name ≡ none
    → get_handler (register r name f).1 spelling
      ≡ (if eq_bytes name (to_lower spelling) then some f else get_handler r spelling)
unfolding register
get_handler-register r name spelling f lower free =
    ap (λ (o : Option ConflictCheckFunc). get_handler (add_check o r name f).1 spelling) free
    ∙ added r name spelling f

lower_twice : (b : Bytes) → to_lower (to_lower b) ≡ to_lower b
unfolding to_lower
lower_twice [] = refl
lower_twice (c ∷ b) = ground (arith, lower_twice b)

never : (name spelling : Bytes) → to_lower name ≢ name → eq_bytes name (to_lower spelling) ≡ false
never name spelling upper = elim (Bool-cases (eq_bytes name (to_lower spelling))) [
  | inr h ↦ h
  | inl h ↦
      let e : name ≡ to_lower spelling = eq_bytes_sound name (to_lower spelling) h in
      absurd (upper (ap to_lower e ∙ lower_twice spelling ∙ sym e))
]

kept :
    (o : Option ConflictCheckFunc) (r : ConflictRouter) (name spelling : Bytes)
    (f : ConflictCheckFunc)
    → to_lower name ≢ name
    → get_handler (add_check o r name f).1 spelling ≡ get_handler r spelling
unfolding add_check
kept (some g) r name spelling f upper = refl
kept none r name spelling f upper = added r name spelling f ∙ rw (never name spelling upper) refl

-- A check that is registered under a name with an upper-case letter is never found: the lookups
-- answer what they did before, under every spelling of every name.
pub get_handler-register_upper :
    (r : ConflictRouter) (name spelling : Bytes) (f : ConflictCheckFunc)
    → to_lower name ≢ name
    → get_handler (register r name f).1 spelling ≡ get_handler r spelling
unfolding register
get_handler-register_upper r name spelling f upper =
    kept (get_handler r name) r name spelling f upper
