-- ===== src/Sets/Written.antt =====
-- What a set is after the calls on its members, its meta and its counter are written.
use zan_redis_db.Prelude.{
  ℕ, ◌^◌, ◌<◌, ◌≡◌, refl, sym, ap, ◌∙◌, arith, Bool, true, false, Option, none, List, [], ◌∷◌, ◌++◌,
  length, if◌then◌else◌,
}
use zan_redis_db.Bytes.{Bytes, contains}
use zan_redis_db.Key.{s_encode_size_key}
use zan_redis_db.Key.Elements.{s_encode_set_key}
use zan_redis_db.Key.Kinds.{table_key-set}
use zan_redis_db.Expire.{HeaderMetaValue, header_is_expired, encode_ver_key}
use zan_redis_db.Expire.Header.{IsHeader}
use zan_redis_db.Engine.{Engine, RockDb, WriteOp, after_all, add_ops, write_batch}
use zan_redis_db.Engine.Batch.{after_all-append, get-write_batch}
use zan_redis_db.Collection.{CollVerKeyInfo, incr_table_key_count}
use zan_redis_db.Collection.Counter.{counter_elsewhere}
use zan_redis_db.Sets.{is_there}
use zan_redis_db.Sets.Model.{IsMemberSet}
use zan_redis_db.Sets.Effect.{size_ops, size_left, size_ops-member, size_ops-meta}

-- The key holds no set, and nothing is left of one under the version.
pub record IsGone {E : Engine} (db : RockDb E) (key table rk : Bytes) (h : HeaderMetaValue)
    : Type 0 where
  pub no_meta : E.get db.eng (s_encode_size_key key) ≡ none
  pub no_members :
      (m : Bytes) → is_there (E.get db.eng (s_encode_set_key table (encode_ver_key h rk) m)) ≡ false
  pub no_batch : db.wb ≡ []

-- The key holds the members, which may be none.
abbrev pub Holds :
    {E : Engine} → RockDb E → ℕ → (key table rk : Bytes) → HeaderMetaValue → List Bytes → Type 0
Holds db ts key table rk h [] = IsGone db key table rk h
Holds db ts key table rk h (x ∷ xs) = IsMemberSet db ts key table rk h (x ∷ xs)

-- What a size and the counter of a table are called to do.
abbrev pub counts : {E : Engine} → RockDb E → Bytes → ℕ → Bool → List WriteOp
counts db table delta b = if b then incr_table_key_count db table delta else []

counts-meta :
    {E : Engine} (db : RockDb E) (name key : Bytes) (delta : ℕ) (b : Bool) (old : Option Bytes)
    → after_all E.merged (counts db name delta b) (s_encode_size_key key) old ≡ old
unfolding after_all
counts-meta {E = E} db name key delta true old =
    counter_elsewhere E.merged db name delta (s_encode_size_key key) old
      ((table_key-set name key [] [] []).0)
counts-meta db name key delta false old = refl

counts-member :
    {E : Engine} (db : RockDb E) (name table k m : Bytes) (delta : ℕ) (b : Bool)
    (old : Option Bytes)
    → after_all E.merged (counts db name delta b) (s_encode_set_key table k m) old ≡ old
unfolding after_all
counts-member {E = E} db name table k m delta true old =
    counter_elsewhere E.merged db name delta (s_encode_set_key table k m) old
      ((table_key-set name [] table k m).1)
counts-member db name table k m delta false old = refl

holds :
    {E : Engine} (db : RockDb E) (ts : ℕ) (key table rk : Bytes) (h : HeaderMetaValue)
    (xs : List Bytes)
    → IsHeader h
    → header_is_expired h ts ≡ false
    → length xs < 2 ^ 62
    → E.get db.eng (s_encode_size_key key) ≡ size_left h (length xs) ts
    → ((m : Bytes)
        → is_there (E.get db.eng (s_encode_set_key table (encode_ver_key h rk) m)) ≡ contains xs m)
    → db.wb ≡ []
    → Holds db ts key table rk h xs
unfolding contains
holds db ts key table rk h [] v alive small meta members empty = record {
  no_meta = meta;
  no_members = members;
  no_batch = empty;
}
holds db ts key table rk h (x ∷ xs) v alive small meta members empty = record {
  set_ts = ts;
  stored = meta;
  header = v;
  alive = alive;
  nonempty = omega arith;
  small = small;
  members = members;
  no_batch = empty;
}

module _ {E : Engine} (db : RockDb E) (ts : ℕ) (key : Bytes) (info : CollVerKeyInfo) (rk : Bytes)
    (h : HeaderMetaValue) (named : info.ver_key ≡ encode_ver_key h rk) (xs : List Bytes)
    (ops : List WriteOp) (delta : ℕ) (b : Bool) (empty : db.wb ≡ []) where
  abbrev pub calls : List WriteOp
  calls = ops ++ (size_ops key h (length xs) ts ++ counts db info.table delta b)

  abbrev pub written : RockDb E
  written = write_batch (add_ops db calls)

  steps :
      (k : Bytes)
      → E.get written.eng k
        ≡ after_all E.merged (counts db info.table delta b) k (
            after_all E.merged
              (size_ops key h (length xs) ts)
              k
              (after_all E.merged ops k (E.get db.eng k)))
  steps k =
      get-write_batch db calls k empty
      ∙ after_all-append E.merged ops _ k (E.get db.eng k)
      ∙ after_all-append E.merged (size_ops key h (length xs) ts) _ k _

  cleared : written.wb ≡ []
  unfolding write_batch
  cleared = refl

  pub written-Holds :
      IsHeader h
      → header_is_expired h ts ≡ false
      → length xs < 2 ^ 62
      → ((m : Bytes)
          → is_there (
              after_all E.merged ops
                (s_encode_set_key info.table info.ver_key m)
                (E.get db.eng (s_encode_set_key info.table info.ver_key m)))
            ≡ contains xs m)
      → Holds written ts key info.table rk h xs
  written-Holds v alive small members =
      holds written ts key info.table rk h xs v alive small
        (steps (s_encode_size_key key)
          ∙ counts-meta db info.table key delta b _
          ∙ size_ops-meta E.merged key h (length xs) ts _)
        (λ m.
          ap (λ (k : Bytes). is_there (E.get written.eng (s_encode_set_key info.table k m)))
            (sym named)
          ∙ ap is_there (
              steps (s_encode_set_key info.table info.ver_key m)
              ∙ counts-member db info.table info.table info.ver_key m delta b _
              ∙ size_ops-member E.merged info key h (length xs) ts m _)
          ∙ members m)
        cleared
