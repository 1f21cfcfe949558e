-- ===== src/Engine/Batch.antt =====
-- What a batch does to one key.
use zan_redis_db.Prelude.{◌≡◌, refl, ap, ◌∙◌, Option, List, [], ◌∷◌, ◌++◌, append_assoc}
use zan_redis_db.Bytes.{Bytes}
use zan_redis_db.Engine.{
  Engine, WriteOp, after, after_all, RockDb, add_ops, commit_batch_write, write_batch,
}

pub after_all-append :
    (m : Bytes → Option Bytes → Option Bytes) (ops ops' : List WriteOp) (key : Bytes)
    (old : Option Bytes)
    → after_all m (ops ++ ops') key old ≡ after_all m ops' key (after_all m ops key old)
unfolding after_all
after_all-append m [] ops' key old = refl
after_all-append m (op ∷ ops) ops' key old = after_all-append m ops ops' key (after m op key old)

-- What a key holds after operations were added to an empty batch, and the batch was written.
pub get-commit_batch_write :
    {E : Engine} (db : RockDb E) (ops : List WriteOp) (key : Bytes)
    → db.wb ≡ []
    → E.get (commit_batch_write (add_ops db ops)).eng key
      ≡ after_all E.merged ops key (E.get db.eng key)
unfolding commit_batch_write add_ops
get-commit_batch_write {E = E} db ops key empty =
    E.get-write db.eng (db.wb ++ ops) key
    ∙ ap (λ (w : List WriteOp). after_all E.merged (w ++ ops) key (E.get db.eng key)) empty

pub get-write_batch :
    {E : Engine} (db : RockDb E) (ops : List WriteOp) (key : Bytes)
    → db.wb ≡ []
    → E.get (write_batch (add_ops db ops)).eng key ≡ after_all E.merged ops key (E.get db.eng key)
unfolding write_batch add_ops
get-write_batch {E = E} db ops key empty =
    E.get-write db.eng (db.wb ++ ops) key
    ∙ ap (λ (w : List WriteOp). after_all E.merged (w ++ ops) key (E.get db.eng key)) empty

pub get-two :
    {E : Engine} (db : RockDb E) (ops ops' : List WriteOp) (key : Bytes)
    → db.wb ≡ []
    → E.get (write_batch (add_ops (add_ops db ops) ops')).eng key
      ≡ after_all E.merged ops' key (after_all E.merged ops key (E.get db.eng key))
unfolding write_batch add_ops
get-two {E = E} db ops ops' key empty =
    E.get-write db.eng ((db.wb ++ ops) ++ ops') key
    ∙ ap (λ (w : List WriteOp). after_all E.merged ((w ++ ops) ++ ops') key (E.get db.eng key))
        empty
    ∙ after_all-append E.merged ops ops' key (E.get db.eng key)

pub get-three :
    {E : Engine} (db : RockDb E) (ops ops' last : List WriteOp) (key : Bytes)
    → db.wb ≡ []
    → E.get (write_batch (add_ops (add_ops (add_ops db ops) ops') last)).eng key
      ≡ after_all E.merged last key
          (after_all E.merged ops' key (after_all E.merged ops key (E.get db.eng key)))
unfolding write_batch add_ops
get-three {E = E} db ops ops' last key empty =
    E.get-write db.eng (((db.wb ++ ops) ++ ops') ++ last) key
    ∙ ap
        (λ (w : List WriteOp).
          after_all E.merged (((w ++ ops) ++ ops') ++ last) key (E.get db.eng key))
        empty
    ∙ after_all-append E.merged (ops ++ ops') last key (E.get db.eng key)
    ∙ ap (after_all E.merged last key) (after_all-append E.merged ops ops' key (E.get db.eng key))

pub add_ops-add_ops :
    {E : Engine} (db : RockDb E) (ops ops' : List WriteOp)
    → add_ops (add_ops db ops) ops' ≡ add_ops db (ops ++ ops')
unfolding add_ops
add_ops-add_ops db ops ops' =
    ap (λ (w : List WriteOp). record db { wb = w }) (append_assoc db.wb ops ops')
