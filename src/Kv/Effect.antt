-- ===== src/Kv/Effect.antt =====
-- What the calls of an operation on the batch do to the key-value pairs.
use zan_redis_db.Prelude.{
  ℕ, ◌≡◌, refl, sym, ap, ◌∙◌, Bool, true, false, Option, none, some, List, [], ◌∷◌, ◌++◌,
  if◌then◌else◌, inl, inr, Bool-cases,
}
use zan_redis_db.Result.{ok}
use zan_redis_db.Bytes.{Bytes, eq_bytes, eq_bytes_sound}
use zan_redis_db.Key.{encode_kv_key, encode_table_meta_key}
use zan_redis_db.Engine.{
  Engine, RockDb, WriteOp, put, delete, after, after_all, add_ops, commit_batch_write,
  maybe_commit_batch,
}
use zan_redis_db.Engine.Batch.{after_all-append, get-commit_batch_write, get-write_batch}
use zan_redis_db.Collection.{incr_table_key_count}
use zan_redis_db.Collection.Counter.{counter_elsewhere}
use zan_redis_db.Kv.{convert_redis_key_to_db_kv_key, kv_get}
use zan_redis_db.Kv.Model.{convert-kv_key, read_raw, kv_get-named, kv_get-same}

pub kv_key-eq : (a b : Bytes) → eq_bytes (encode_kv_key a) (encode_kv_key b) ≡ eq_bytes a b
unfolding eq_bytes encode_kv_key
kv_key-eq a b = refl

table_key-kv_key :
    (name key : Bytes) → eq_bytes (encode_table_meta_key name) (encode_kv_key key) ≡ false
unfolding eq_bytes encode_kv_key encode_table_meta_key
table_key-kv_key name key = refl

-- The calls set one key-value pair, or remove it, and leave the other pairs alone.
abbrev pub SetsOnly :
    (Bytes → Option Bytes → Option Bytes) → List WriteOp → Bytes → Option Bytes → Type 0
SetsOnly m ops key v =
    (other : Bytes) (old : Option Bytes)
    → after_all m ops (encode_kv_key other) old ≡ (if eq_bytes key other then v else old)

-- The calls leave all pairs alone.
abbrev pub SetsNothing : (Bytes → Option Bytes → Option Bytes) → List WriteOp → Type 0
SetsNothing m ops =
    (other : Bytes) (old : Option Bytes) → after_all m ops (encode_kv_key other) old ≡ old

module _ (m : Bytes → Option Bytes → Option Bytes) where
  pub counts-SetsNothing :
      {E : Engine} (db : RockDb E) (table : Bytes) (delta : ℕ)
      → SetsNothing m (incr_table_key_count db table delta)
  counts-SetsNothing db table delta other old =
      counter_elsewhere m db table delta (encode_kv_key other) old (table_key-kv_key table other)

  pub nil-SetsNothing : SetsNothing m []
  unfolding after_all
  nil-SetsNothing other old = refl

  pub if-SetsNothing :
      (b : Bool) (ops : List WriteOp) → SetsNothing m ops → SetsNothing m (if b then ops else [])
  if-SetsNothing true ops h = h
  if-SetsNothing false ops h = nil-SetsNothing

  pub if_not-SetsNothing :
      (b : Bool) (ops : List WriteOp) → SetsNothing m ops → SetsNothing m (if b then [] else ops)
  if_not-SetsNothing true ops h = nil-SetsNothing
  if_not-SetsNothing false ops h = h

  pub put-SetsOnly :
      (key raw : Bytes) → SetsOnly m (put (encode_kv_key key) raw ∷ []) key (some raw)
  unfolding after_all after
  put-SetsOnly key raw other old =
      ap (λ (b : Bool). if b then some raw else old) (kv_key-eq key other)

  pub delete-SetsOnly : (key : Bytes) → SetsOnly m (delete (encode_kv_key key) ∷ []) key none
  unfolding after_all after
  delete-SetsOnly key other old = ap (λ (b : Bool). if b then none else old) (kv_key-eq key other)

  pub before-SetsOnly :
      (ops ops' : List WriteOp) (key : Bytes) (v : Option Bytes)
      → SetsNothing m ops
      → SetsOnly m ops' key v
      → SetsOnly m (ops ++ ops') key v
  before-SetsOnly ops ops' key v h k other old =
      after_all-append m ops ops' (encode_kv_key other) old
      ∙ ap (after_all m ops' (encode_kv_key other)) (h other old)
      ∙ k other old

  pub behind-SetsOnly :
      (ops ops' : List WriteOp) (key : Bytes) (v : Option Bytes)
      → SetsOnly m ops key v
      → SetsNothing m ops'
      → SetsOnly m (ops ++ ops') key v
  behind-SetsOnly ops ops' key v h k other old =
      after_all-append m ops ops' (encode_kv_key other) old
      ∙ k other (after_all m ops (encode_kv_key other) old)
      ∙ h other old

-- Outside of a batch of commands, the calls are written at once.
pub record Applied {E : Engine} (db db' : RockDb E) (ops : List WriteOp) : Type 0 where
  pub reads : (key : Bytes) → E.get db'.eng key ≡ after_all E.merged ops key (E.get db.eng key)
  pub no_batch : db'.wb ≡ []
  pub not_batching : db'.is_batching ≡ false
  pub same_enable : db'.enable_table_counter ≡ db.enable_table_counter
  pub same_estimate : db'.estimate_table_counter ≡ db.estimate_table_counter

module _ {E : Engine} (db : RockDb E) (ops : List WriteOp) (empty : db.wb ≡ []) where
  pub commit-Applied : Applied db (commit_batch_write (add_ops db ops)) ops
  unfolding commit_batch_write add_ops
  commit-Applied = record {
    reads = λ key. get-commit_batch_write db ops key empty;
    no_batch = refl;
    not_batching = refl;
    same_enable = refl;
    same_estimate = refl;
  }

  pub maybe-Applied : db.is_batching ≡ false → Applied db (maybe_commit_batch (add_ops db ops)) ops
  unfolding maybe_commit_batch add_ops
  maybe-Applied unbatched = rw unbatched (record {
    reads = λ key. get-write_batch db ops key empty;
    no_batch = refl;
    not_batching = refl;
    same_enable = refl;
    same_estimate = refl;
  })

module _ {E : Engine} {db db' : RockDb E} {ops : List WriteOp} (w : Applied db db' ops) where
  -- What GET gives after an operation that sets or removes one pair.
  pub kv_get-Applied :
      (key table kk : Bytes) (v : Option Bytes)
      → convert_redis_key_to_db_kv_key key ≡ ok (table, kk)
      → SetsOnly E.merged ops key v
      → (now : ℕ) (other : Bytes)
      → kv_get db' now other ≡ (if eq_bytes key other then read_raw now v else kv_get db now other)
  kv_get-Applied key table kk v named sets now other = elim (Bool-cases (eq_bytes key other)) [
    | inl h ↦
        let same : key ≡ other = eq_bytes_sound key other h in
        let named' : convert_redis_key_to_db_kv_key other ≡ ok (table, kk) =
          ap convert_redis_key_to_db_kv_key (sym same) ∙ named in
        rw h (
          kv_get-named db' now other table kk named'
          ∙ ap (λ (k : Bytes). read_raw now (E.get db'.eng k))
              (convert-kv_key other table kk named')
          ∙ ap (read_raw now) (
              w.reads (encode_kv_key other)
              ∙ sets other (E.get db.eng (encode_kv_key other))
              ∙ ap (λ (b : Bool). if b then v else E.get db.eng (encode_kv_key other)) h))
    | inr h ↦ rw h (
        kv_get-same db' db now other (
          w.reads (encode_kv_key other)
          ∙ sets other (E.get db.eng (encode_kv_key other))
          ∙ ap (λ (b : Bool). if b then v else E.get db.eng (encode_kv_key other)) h))
  ]
