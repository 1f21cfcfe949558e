-- ===== src/Lists/Effect.antt =====
-- What the writes of the list operations do to the meta and the elements.
use zan_redis_db.Prelude.{
  ℕ, zero, suc, ◌+◌, ◌-◌, ◌≤◌, ◌<◌, ◌≡◌, refl, ◌∙◌, arith, false, Option, none, some, List, [], ◌∷◌,
  length,
}
use zan_redis_db.Result.{Result, ok, err}
use zan_redis_db.Bytes.{Bytes, IsWord64, add_int64, eq_bytes_refl}
use zan_redis_db.Key.{l_encode_meta_key}
use zan_redis_db.Key.Elements.{l_encode_list_key}
use zan_redis_db.Key.Kinds.{meta_key-list_key}
use zan_redis_db.Expire.{HeaderMetaValue, encode_ver_key, encode_with_data, header_is_expired}
use zan_redis_db.Expire.Header.{IsHeader}
use zan_redis_db.Engine.{Engine, RockDb, WriteOp, put, delete, after, after_all}
use zan_redis_db.Lists.{list_min_seq, list_max_seq, sub_int64, encode_list_meta, l_set_meta}
use zan_redis_db.Lists.Places.{element-nil}
use zan_redis_db.Lists.Model.{IsList, element, last_of}

-- The key holds no list any more, and nothing is left of it under its version.
pub record IsGone {E : Engine} (db : RockDb E) (key table rk : Bytes) (h : HeaderMetaValue)
    : Type 0 where
  pub no_meta : E.get db.eng (l_encode_meta_key key) ≡ none
  pub no_elements :
      (seq : ℕ)
      → IsWord64 seq
      → E.get db.eng (l_encode_list_key table (encode_ver_key h rk) seq) ≡ none
  pub no_batch : db.wb ≡ []

-- The key holds the values, which may be none.
abbrev pub Holds :
    {E : Engine} → RockDb E → ℕ → (key table rk : Bytes) → HeaderMetaValue → ℕ → List Bytes → Type 0
Holds db ts key table rk h head [] = IsGone db key table rk h
Holds db ts key table rk h head (x ∷ xs) = IsList db ts key table rk h head (x ∷ xs)

abbrev bytes_or_nil : Result Bytes → Bytes
bytes_or_nil (ok b) = b
bytes_or_nil (err e) = []

-- The raw meta of a list.
abbrev pub list_raw : HeaderMetaValue → ℕ → ℕ → ℕ → Bytes
list_raw h head tail ts = bytes_or_nil (encode_list_meta h head tail ts)

pub encode_list_meta-ok :
    (h : HeaderMetaValue) (head tail ts : ℕ)
    → IsHeader h
    → encode_list_meta h head tail ts ≡ ok (list_raw h head tail ts)
unfolding encode_list_meta encode_with_data
encode_list_meta-ok h head tail ts v = rw v.version_one refl

-- The call of lSetMeta, for a list that begins at `head`, whose size may be zero.
abbrev pub meta_ops : Bytes → HeaderMetaValue → ℕ → ℕ → ℕ → List WriteOp
meta_ops key h head zero ts = delete (l_encode_meta_key key) ∷ []
meta_ops key h head (suc size) ts =
    put (l_encode_meta_key key) (list_raw h head (head + suc size - 1) ts) ∷ []

pub l_set_meta-ok :
    (key : Bytes) (h : HeaderMetaValue) (head size ts : ℕ)
    → IsHeader h
    → 1 ≤ head
    → head + size ≤ list_max_seq
    → l_set_meta key h head (head + size - 1) ts ≡ ok (size, meta_ops key h head size ts)
unfolding l_set_meta
l_set_meta-ok key h head zero ts v low high =
    let e : add_int64 (sub_int64 (head + 0 - 1) head) 1 ≡ 0 = omega arith in rw e refl
l_set_meta-ok key h head (suc size) ts v low high =
    let e : add_int64 (sub_int64 (head + suc size - 1) head) 1 ≡ suc size = omega arith in
    rw (e, encode_list_meta-ok h head (head + suc size - 1) ts v) (ground arith)

module _ (m : Bytes → Option Bytes → Option Bytes) where
  pub meta_ops-elements :
      (key table k : Bytes) (h : HeaderMetaValue) (head size ts seq : ℕ) (old : Option Bytes)
      → after_all m (meta_ops key h head size ts) (l_encode_list_key table k seq) old ≡ old
  unfolding after_all after
  meta_ops-elements key table k h head zero ts seq old =
      rw ((meta_key-list_key key table k seq).0) refl
  meta_ops-elements key table k h head (suc size) ts seq old =
      rw ((meta_key-list_key key table k seq).0) refl

  -- The meta that lSetMeta leaves.
  abbrev pub meta_left : HeaderMetaValue → ℕ → ℕ → ℕ → Option Bytes
  meta_left h head zero ts = none
  meta_left h head (suc size) ts = some (list_raw h head (head + suc size - 1) ts)

  pub meta_ops-meta :
      (key : Bytes) (h : HeaderMetaValue) (head size ts : ℕ) (old : Option Bytes)
      → after_all m (meta_ops key h head size ts) (l_encode_meta_key key) old
        ≡ meta_left h head size ts
  unfolding after_all after
  meta_ops-meta key h head zero ts old = rw (eq_bytes_refl (l_encode_meta_key key)) refl
  meta_ops-meta key h head (suc size) ts old = rw (eq_bytes_refl (l_encode_meta_key key)) refl

pub l_set_meta-header :
    (key : Bytes) (h : HeaderMetaValue) (user : Option Bytes) (head tail ts : ℕ)
    → l_set_meta key (record h { user_data = user }) head tail ts ≡ l_set_meta key h head tail ts
unfolding l_set_meta encode_list_meta
l_set_meta-header key h user head tail ts = refl

-- A handle holds the values when the meta and the elements are right.
pub holds :
    {E : Engine} (db : RockDb E) (ts : ℕ) (key table rk : Bytes) (h : HeaderMetaValue) (head : ℕ)
    (xs : List Bytes)
    → IsHeader h
    → header_is_expired h ts ≡ false
    → IsWord64 ts
    → list_min_seq < head
    → head + length xs ≤ list_max_seq
    → E.get db.eng (l_encode_meta_key key) ≡ meta_left E.merged h head (length xs) ts
    → ((seq : ℕ)
        → IsWord64 seq
        → E.get db.eng (l_encode_list_key table (encode_ver_key h rk) seq) ≡ element xs head seq)
    → db.wb ≡ []
    → Holds db ts key table rk h head xs
holds db ts key table rk h head [] v alive w low high meta elements empty = record {
  no_meta = meta;
  no_elements = λ seq ws. elements seq ws ∙ element-nil head seq;
  no_batch = empty;
}
holds db ts key table rk h head (x ∷ xs) v alive w low high meta elements empty = record {
  list_ts = ts;
  raw = list_raw h head (last_of (x ∷ xs) head) ts;
  encoded = encode_list_meta-ok h head (last_of (x ∷ xs) head) ts v;
  stored = meta;
  header = v;
  alive = alive;
  ts_fits = w;
  nonempty = omega arith;
  low = low;
  high = high;
  elements = elements;
  no_batch = empty;
}
