-- ===== src/Engine.antt =====
-- The storage engine that rockredis writes to (RocksDB, behind the package engine), as far as the
-- data types use it: point reads, ordered iteration over a closed range, and atomic batches. It is
-- a parameter of the model; `get-write` is what it documents of batches. Its I/O errors are left
-- out. rockredis/rockredis.go: the database handle and its shared write batch.
pub mod Batch
pub mod Table
use zan_redis_db.Prelude.{
  ℕ, ◌≡◌, Bool, true, false, not, ◌&&◌, Ordering, Option, none, some, List, [], ◌∷◌, ◌++◌,
  if◌then◌else◌,
}
use zan_redis_db.Result.{Result, ok, err, another_batching}
use zan_redis_db.Bytes.{Bytes, compare_bytes, eq_bytes}

-- The operations of a write batch.
pub data WriteOp : Type 0 where
  put : Bytes → Bytes → WriteOp
  delete : Bytes → WriteOp
  delete_range : Bytes → Bytes → WriteOp
  merge : Bytes → Bytes → WriteOp

abbrev pub before : Bytes → Bytes → Bool
before a b = elim (compare_bytes a b) [ Ordering.lt ↦ true | _ ↦ false ]

-- What one operation, and then a batch, makes of the value of a key. A range is closed on the left
-- and open on the right; the merge operator is the engine's.
unfoldable pub after :
    (Bytes → Option Bytes → Option Bytes) → WriteOp → Bytes → Option Bytes → Option Bytes
after merged (put k v) key old = if eq_bytes k key then some v else old
after merged (delete k) key old = if eq_bytes k key then none else old
after merged (delete_range a b) key old = if not (before key a) && before key b then none else old
after merged (merge k d) key old = if eq_bytes k key then merged d old else old

unfoldable pub after_all :
    (Bytes → Option Bytes → Option Bytes) → List WriteOp → Bytes → Option Bytes → Option Bytes
after_all merged [] key old = old
after_all merged (op ∷ ops) key old = after_all merged ops key (after merged op key old)

pub record Engine : Type 1 where
  pub Db : Type 0
  pub get : Db → Bytes → Option Bytes
  pub iterate : Db → Bytes → Bytes → List (Bytes × Bytes)
  pub write : Db → List WriteOp → Db
  pub merged : Bytes → Option Bytes → Option Bytes
  pub get-write :
      (db : Db) (ops : List WriteOp) (key : Bytes)
      → get (write db ops) key ≡ after_all merged ops key (get db key)

-- The handle: the engine, the write batch that the operations share, whether commands are being
-- batched, and the settings of the table counters. The expiration policy is WaitCompact.
pub record RockDb (E : Engine) : Type 0 where
  pub eng : E.Db
  pub wb : List WriteOp
  pub is_batching : Bool
  pub enable_table_counter : Bool
  pub estimate_table_counter : Bool

module _ {E : Engine} where
  -- Calls on the batch, `wb.Clear()`, and `eng.Write(wb)` of a batch that is cleared afterwards.
  unfoldable pub add_ops : RockDb E → List WriteOp → RockDb E
  add_ops db ops = record db { wb = db.wb ++ ops }

  unfoldable pub clear_batch : RockDb E → RockDb E
  clear_batch db = record db { wb = [] }

  unfoldable pub write_batch : RockDb E → RockDb E
  write_batch db = record db { eng = E.write db.eng db.wb; wb = [] }

  -- The batch of commands: its begin, which only one batch can have, a write that ends it, a write
  -- that a batch puts off, and its abort.
  unfoldable pub begin_batch_write : RockDb E → Result (Unit {0}) × RockDb E
  begin_batch_write db =
      if db.is_batching
      then (err another_batching, db)
      else (ok tt, record db { is_batching = true })

  unfoldable pub commit_batch_write : RockDb E → RockDb E
  commit_batch_write db = record db { eng = E.write db.eng db.wb; wb = []; is_batching = false }

  unfoldable pub maybe_commit_batch : RockDb E → RockDb E
  unfolding write_batch
  maybe_commit_batch db = if db.is_batching then db else write_batch db

  unfoldable pub abort_batch : RockDb E → RockDb E
  abort_batch db = record db { wb = []; is_batching = false }

-- `if err != nil { return ... }` with the state that is returned.
unfoldable pub or_return {ℓ κ} :
    {A : Type ℓ} {B : Type 0} {S : Type κ} → Result A → S → (A → Result B × S) → Result B × S
or_return (err e) s k = (err e, s)
or_return (ok a) s k = k a
