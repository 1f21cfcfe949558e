-- ===== src/StateMachine/Batch/Commands.antt =====
-- SET, SETEX and DEL of one key as commands of the state machine: what each calls on the shared batch,
-- what it answers, and that both look at nothing but the value of its own key.
use mathlib.Core.Path.{subst}
use zan_redis_db.Prelude.{
  ℕ, ◌+◌, append-nil, ◌<◌, ◌≡◌, refl, ap, ◌∙◌, arith, Bool, true, false, not, ◌||◌, Option, none,
  some, List, [], ◌∷◌, ◌++◌, if◌then◌else◌,
}
use zan_redis_db.Result.{ok}
use zan_redis_db.Bytes.{Bytes, IsWord64, lt_int64, neg_int64}
use zan_redis_db.Key.{encode_kv_key, check_value_size}
use zan_redis_db.Expire.{max_expire}
use zan_redis_db.Engine.{
  Engine, RockDb, WriteOp, delete, after_all, add_ops, maybe_commit_batch, or_return,
}
use zan_redis_db.Collection.{incr_table_key_count}
use zan_redis_db.Kv.{convert_redis_key_to_db_kv_key, is_some}
use zan_redis_db.Kv.Number.{str_int64, format_int64, str_int64-format_int64}
use zan_redis_db.Kv.Model.{convert-kv_key, kv_raw, kv_header, expiry_of}
use zan_redis_db.Kv.Effect.{
  SetsOnly, SetsNothing, nil-SetsNothing, counts-SetsNothing, before-SetsOnly, delete-SetsOnly,
  Applied, maybe-Applied,
}
use zan_redis_db.Kv.Write.{del_keys, del_each, kv_del, del_count, set_ex}
use zan_redis_db.Kv.Write.Store.{set_ops, set_ops-SetsOnly, kv_set_eq, set_ex_eq}
use zan_redis_db.StateMachine.{set_name, setex_name, del_name}
use zan_redis_db.StateMachine.Handlers.{
  Reply, nil, int, Handler, local_set_command, local_setex_command, local_del_command,
}

pub data KvCommand : Type 0 where
  set : Bytes → Bytes → KvCommand
  setex : Bytes → ℕ → Bytes → KvCommand
  del : Bytes → KvCommand

abbrev pub key_of : KvCommand → Bytes
key_of (set key v) = key
key_of (setex key ttl v) = key
key_of (del key) = key

-- The arguments of a command as a client sends them.
abbrev pub args_of : KvCommand → List Bytes
args_of (set key v) = set_name ∷ key ∷ v ∷ []
args_of (setex key ttl v) = setex_name ∷ key ∷ format_int64 ttl ∷ v ∷ []
args_of (del key) = del_name ∷ key ∷ []

abbrev pub handler_of : {E : Engine} → KvCommand → Handler E
handler_of (set key v) = local_set_command
handler_of (setex key ttl v) = local_setex_command
handler_of (del key) = local_del_command

-- The key is accepted, the value has an allowed size, and a time to live is positive and ends before
-- the largest expiry.
abbrev IsAllowed : ℕ → KvCommand → Type 0
IsAllowed ts (set key v) = check_value_size v ≡ ok tt
IsAllowed ts (setex key ttl v) =
    (check_value_size v ≡ ok tt)
    × IsWord64 ttl
    × (lt_int64 0 ttl ≡ true)
    × (expiry_of ts ttl < max_expire)
IsAllowed ts (del key) = Unit {0}

pub record IsFine (ts : ℕ) (c : KvCommand) : Type 0 where
  pub table : Bytes
  pub kk : Bytes
  pub named : convert_redis_key_to_db_kv_key (key_of c) ≡ ok (table, kk)
  pub allowed : IsAllowed ts c

-- What a command leaves under its key.
abbrev pub left_by : ℕ → KvCommand → Option Bytes
left_by ts (set key v) = some (kv_raw (kv_header (expiry_of ts 0)) v ts)
left_by ts (setex key ttl v) = some (kv_raw (kv_header (expiry_of ts ttl)) v ts)
left_by ts (del key) = none

-- The three cases of what KVDel counts.
by_settings :
    (m : Bytes → Option Bytes → Option Bytes) (enabled counted : Bool) (ops : List WriteOp)
    → SetsNothing m ops
    → SetsNothing m (
        (let none_counted : ℕ × List WriteOp = (1, []) in
          if not enabled then none_counted else if counted then (1, ops) else (0, [])).1)
by_settings m false counted ops h = nil-SetsNothing m
by_settings m true true ops h = h
by_settings m true false ops h = nil-SetsNothing m

module _ {E : Engine} (db : RockDb E) (table : Bytes) where
  abbrev pub ops_of : ℕ → KvCommand → List WriteOp
  ops_of ts (set key v) = set_ops db ts table key v 0
  ops_of ts (setex key ttl v) = set_ops db ts table key v ttl
  ops_of ts (del key) =
      (del_count db table (encode_kv_key key)).1 ++ (delete (encode_kv_key key) ∷ [])

  abbrev pub reply_of : KvCommand → Reply
  reply_of (set key v) = nil
  reply_of (setex key ttl v) = nil
  reply_of (del key) = int ((del_count db table (encode_kv_key key)).0)

  del_count-SetsNothing : (kk : Bytes) → SetsNothing E.merged ((del_count db table kk).1)
  unfolding del_count
  del_count-SetsNothing kk =
      by_settings E.merged db.enable_table_counter
        (db.estimate_table_counter || is_some (E.get db.eng kk))
        (incr_table_key_count db table (neg_int64 1))
        (counts-SetsNothing E.merged db table (neg_int64 1))

  pub ops_of-SetsOnly :
      (ts : ℕ) (c : KvCommand) → SetsOnly E.merged (ops_of ts c) (key_of c) (left_by ts c)
  ops_of-SetsOnly ts (set key v) = set_ops-SetsOnly db ts table key v 0
  ops_of-SetsOnly ts (setex key ttl v) = set_ops-SetsOnly db ts table key v ttl
  ops_of-SetsOnly ts (del key) =
      before-SetsOnly E.merged ((del_count db table (encode_kv_key key)).1)
        (delete (encode_kv_key key) ∷ []) key none (del_count-SetsNothing (encode_kv_key key))
        (delete-SetsOnly E.merged key)

-- A command with the store as it leaves it.
pub record Runs {E : Engine} (db : RockDb E) (ts : ℕ) (c : KvCommand) (table : Bytes) : Type 0 where
  pub answer : (handler_of c (args_of c) ts db).0 ≡ ok (reply_of db table c)
  pub batched :
      db.is_batching ≡ true → (handler_of c (args_of c) ts db).1 ≡ add_ops db (ops_of db table ts c)
  pub unbatched :
      db.wb ≡ []
      → db.is_batching ≡ false
      → Applied db ((handler_of c (args_of c) ts db).1) (ops_of db table ts c)

maybe-batching :
    {E : Engine} (db : RockDb E) (ops : List WriteOp)
    → db.is_batching ≡ true
    → maybe_commit_batch (add_ops db ops) ≡ add_ops db ops
unfolding maybe_commit_batch add_ops
maybe-batching db ops h = rw h refl

add_none : {E : Engine} (db : RockDb E) → add_ops db [] ≡ db
unfolding add_ops
add_none db = ap (λ (w : List WriteOp). record db { wb = w }) (append-nil db.wb)

idle-Applied :
    {E : Engine} (db : RockDb E)
    → db.wb ≡ []
    → db.is_batching ≡ false
    → Applied db (maybe_commit_batch db) []
idle-Applied db empty unbatched =
    subst (λ d. Applied db (maybe_commit_batch d) []) (add_none db)
      (maybe-Applied db [] empty unbatched)

-- A second call of MaybeCommitBatch writes an empty batch at most.
twice-Applied :
    {E : Engine} (db : RockDb E) (ops : List WriteOp)
    → db.wb ≡ []
    → db.is_batching ≡ false
    → Applied db (maybe_commit_batch (maybe_commit_batch (add_ops db ops))) ops
unfolding after_all
twice-Applied {E = E} db ops empty unbatched =
    let w : Applied db (maybe_commit_batch (add_ops db ops)) ops =
      maybe-Applied db ops empty unbatched in
    let idle : Applied (maybe_commit_batch (add_ops db ops))
        (maybe_commit_batch (maybe_commit_batch (add_ops db ops))) [] =
      idle-Applied (maybe_commit_batch (add_ops db ops)) w.no_batch w.not_batching in
    record {
      reads = λ key. idle.reads key ∙ w.reads key;
      no_batch = idle.no_batch;
      not_batching = idle.not_batching;
      same_enable = idle.same_enable ∙ w.same_enable;
      same_estimate = idle.same_estimate ∙ w.same_estimate;
    }

module _ {E : Engine} (db : RockDb E) (ts : ℕ) where
  set-Runs :
      (key v table kk : Bytes)
      → convert_redis_key_to_db_kv_key key ≡ ok (table, kk)
      → check_value_size v ≡ ok tt
      → Runs db ts (set key v) table
  unfolding local_set_command
  set-Runs key v table kk named fits = record {
    answer = rw (kv_set_eq db key table kk named v fits ts) refl;
    batched = λ h.
        rw (kv_set_eq db key table kk named v fits ts)
          (maybe-batching db (set_ops db ts table key v 0) h);
    unbatched = λ empty h.
        rw (kv_set_eq db key table kk named v fits ts)
          (maybe-Applied db (set_ops db ts table key v 0) empty h);
  }

  setex-Runs :
      (key v table kk : Bytes) (ttl : ℕ)
      → convert_redis_key_to_db_kv_key key ≡ ok (table, kk)
      → IsAllowed ts (setex key ttl v)
      → Runs db ts (setex key ttl v) table
  unfolding local_setex_command or_return
  setex-Runs key v table kk ttl named (fits, w, positive, small) =
      let run : set_ex db ts key ttl v
          ≡ (ok tt, maybe_commit_batch (add_ops db (set_ops db ts table key v ttl))) =
        set_ex_eq db key table kk named v fits ts ttl positive small in
      let text : str_int64 (format_int64 ttl) ≡ ok ttl = str_int64-format_int64 ttl w in
      record {
        answer = rw (text, run) refl;
        batched = λ h. rw (text, run) (maybe-batching db (set_ops db ts table key v ttl) h);
        unbatched =
            λ empty h. rw (text, run) (maybe-Applied db (set_ops db ts table key v ttl) empty h);
      }

  del_keys_eq :
      (key table kk : Bytes)
      → convert_redis_key_to_db_kv_key key ≡ ok (table, kk)
      → del_keys db (key ∷ []) ≡ (
        ok ((del_count db table (encode_kv_key key)).0),
        maybe_commit_batch (maybe_commit_batch (add_ops db (ops_of db table ts (del key)))),
      )
  unfolding del_keys del_each kv_del or_return
  del_keys_eq key table kk named =
      let n : ℕ = (del_count db table (encode_kv_key key)).0 in
      rw (named, convert-kv_key key table kk named)
        (ap
          (λ (m : ℕ). (
            ok m,
            maybe_commit_batch (maybe_commit_batch (add_ops db (ops_of db table ts (del key)))),
          ))
          {x = n + 0} {y = n} (omega arith))

  del-Runs :
      (key table kk : Bytes)
      → convert_redis_key_to_db_kv_key key ≡ ok (table, kk)
      → Runs db ts (del key) table
  unfolding local_del_command
  del-Runs key table kk named = record {
    answer = rw (del_keys_eq key table kk named) refl;
    batched = λ h. rw (del_keys_eq key table kk named) (
        ap maybe_commit_batch (maybe-batching db (ops_of db table ts (del key)) h)
        ∙ maybe-batching db (ops_of db table ts (del key)) h);
    unbatched = λ empty h.
        rw (del_keys_eq key table kk named)
          (twice-Applied db (ops_of db table ts (del key)) empty h);
  }

  -- An allowed command does not fail.
  pub runs : (c : KvCommand) (f : IsFine ts c) → Runs db ts c f.table
  runs (set key v) f = set-Runs key v f.table f.kk f.named f.allowed
  runs (setex key ttl v) f = setex-Runs key v f.table f.kk ttl f.named f.allowed
  runs (del key) f = del-Runs key f.table f.kk f.named
