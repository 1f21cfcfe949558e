-- ===== src/StateMachine/Batch/Law.antt =====
-- Commands that are batched against the same commands one by one.
use zan_redis_db.Prelude.{ℕ, ◌≡◌, refl, ap, Bool, false, some, List, [], ◌∷◌, ◌++◌, map, ◌==◌}
use zan_redis_db.Result.{Result, ok, err}
use zan_redis_db.Bytes.{Bytes}
use zan_redis_db.Engine.{Engine, RockDb}
use zan_redis_db.Kv.{kv_get}
use zan_redis_db.StateMachine.{
  StateMachine, Response, reply, failed, Request, ReqList, Entry, redis, is_batchable, run_handler,
  set_name, setex_name, del_name,
}
use zan_redis_db.StateMachine.Handlers.{Reply}
use zan_redis_db.StateMachine.Batch.Commands.{
  KvCommand, set, setex, del, key_of, args_of, handler_of, IsFine,
}
use zan_redis_db.StateMachine.Batch.Sim.{Sim}

-- A command of a client, with its identifier and its time.
pub record ClientCommand : Type 0 where
  pub id : ℕ
  pub ts : ℕ
  pub cmd : KvCommand
  pub fine : IsFine ts cmd
  pub id_set : (id == 0) ≡ false

abbrev pub request_of : ClientCommand → Request
request_of c = record { req_id = c.id; timestamp = c.ts; req_data = redis (args_of c.cmd) }

-- Entries that this cluster's clients proposed; their requests carry the time.
abbrev client_list : ReqList
client_list = record {
  list_ts = 0;
  list_id = 0;
  is_replaying = false;
  from_syncer = false;
  syncer_only = false;
}

abbrev pub entry_of : List ClientCommand → Entry
entry_of cs = record { req_list = client_list; reqs = map request_of cs }

abbrev response_of : Result Reply → Response
response_of (ok v) = reply v
response_of (err e) = failed e

-- The commands one by one: each handler runs and writes before the next one does, and each command is
-- answered by its result.
unfoldable pub one_by_one :
    {E : Engine} → RockDb E → List ClientCommand → RockDb E × List (ℕ × Response)
one_by_one db [] = (db, [])
one_by_one db (c ∷ cs) =
    let done = handler_of c.cmd (args_of c.cmd) c.ts db in
    let rest = one_by_one (done.1) cs in (rest.0, (c.id, response_of (done.0)) ∷ rest.1)

pub one_by_one-append :
    {E : Engine} (db : RockDb E) (cs ds : List ClientCommand)
    → ((one_by_one db (cs ++ ds)).0 ≡ (one_by_one ((one_by_one db cs).0) ds).0)
      × ((one_by_one db (cs ++ ds)).1
          ≡ (one_by_one db cs).1 ++ (one_by_one ((one_by_one db cs).0) ds).1)
unfolding one_by_one
one_by_one-append db [] ds = (refl, refl)
one_by_one-append db (c ∷ cs) ds =
    let done : Result Reply × RockDb _ = handler_of c.cmd (args_of c.cmd) c.ts db in
    let (a, b) = one_by_one-append (done.1) cs ds in
    (a, ap (λ (l : List (ℕ × Response)). (c.id, response_of (done.0)) ∷ l) b)

abbrev pub flatten : List (List ClientCommand) → List ClientCommand
flatten [] = []
flatten (cs ∷ entries) = cs ++ flatten entries

-- A machine between two rounds.
pub record IsIdle {E : Engine} (sm : StateMachine E) : Type 0 where
  pub not_batching : sm.batching ≡ false
  pub store_not_batching : sm.store.is_batching ≡ false
  pub no_batch : sm.store.wb ≡ []
  pub no_ids : sm.batch_req_ids ≡ []
  pub no_rsps : sm.batch_rsps ≡ []
  pub no_keys : sm.dup_check ≡ []
  pub running : sm.crashed ≡ false

-- A round leaves a machine as the commands leave the store, and answers what they answer.
abbrev pub IsSameAs :
    {E : Engine} → StateMachine E → StateMachine E → RockDb E × List (ℕ × Response) → Type 0
IsSameAs sm done plain =
    (done.triggered ≡ sm.triggered ++ plain.1)
    × ((now : ℕ) (key : Bytes) → kv_get done.store now key ≡ kv_get (plain.0) now key)
    × (done.batching ≡ false)
    × (done.store.wb ≡ [])
    × (done.crashed ≡ false)

abbrev name_of : KvCommand → Bytes
name_of (set key v) = set_name
name_of (setex key ttl v) = setex_name
name_of (del key) = del_name

module _ {E : Engine} (sm : StateMachine E) (id ts : ℕ) (c : KvCommand) where
  abbrev run : StateMachine E → StateMachine E
  run s = run_handler (some (handler_of c)) s id ts (key_of c) (args_of c)

  abbrev batchable : Bool
  batchable = is_batchable sm (name_of c) (key_of c) (args_of c)
