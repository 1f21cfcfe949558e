-- ===== src/StateMachine.antt =====
-- node/state_machine.go: kvbatchOperator, and the loop of ApplyRaftRequest over the requests of one
-- raft entry, with the conflict check of node/conflict_checker.go and the handlers of
-- StateMachine.Handlers. What redcon.Parse reads is part of a request. Custom requests, schema
-- changes, metrics, the slow limiter's record, errors of the disk, and the second answer to a request
-- that still waits at the end of its entry are not modelled.
pub mod Handlers
pub mod Batch
mod Examples
use zan_redis_db.Prelude.{
  ℕ, Bool, true, false, not, ◌&&◌, ◌||◌, Option, none, some, List, [], ◌∷◌, ◌++◌, length, ltb, ◌==◌,
  if◌then◌else◌,
}
use zan_redis_db.Result.{
  Result, ok, err, Error, too_much_batch_size, invalid_command, index_panic, unknown_data,
}
use zan_redis_db.Bytes.{Bytes, eq_bytes, contains}
use zan_redis_db.Key.{table_start_sep}
use zan_redis_db.Engine.{Engine, RockDb, begin_batch_write, commit_batch_write, abort_batch}
use zan_redis_db.Conflict.{
  ConflictState, conflict, ConflictRouter, VersionStore, get_handler, to_lower,
}
use zan_redis_db.StateMachine.Handlers.{Reply, nil, Handler, find_handler}

-- What a waiting request is answered with.
pub data Response : Type 0 where
  reply : Reply → Response
  failed : Error → Response

abbrev pub max_db_batch_cmd_num : ℕ
max_db_batch_cmd_num = 100

-- The store, the batch operator, and all answers so far. `dup_check` holds the keys of
-- `dupCheckMap`; a panic stops the machine.
pub record StateMachine (E : Engine) : Type 0 where
  pub store : RockDb E
  pub batching : Bool
  pub batch_req_ids : List ℕ
  pub batch_rsps : List Reply
  pub dup_check : List Bytes
  pub triggered : List (ℕ × Response)
  pub crashed : Bool

-- A request of an entry: its identifier, its timestamp, and what its data are.
pub data ReqData : Type 0 where
  redis : List Bytes → ReqData
  redis_v2 : List Bytes → ReqData
  unparsed : Error → ReqData
  unknown : ReqData

pub record Request : Type 0 where
  pub req_id : ℕ
  pub timestamp : ℕ
  pub req_data : ReqData

-- What holds for all requests of an entry. A timestamp or an identifier of 0 is not set.
pub record ReqList : Type 0 where
  pub list_ts : ℕ
  pub list_id : ℕ
  pub is_replaying : Bool
  pub from_syncer : Bool
  pub syncer_only : Bool

-- "set", "setex", "del" and "hmset".
abbrev pub set_name : Bytes
set_name = b's' ∷ b'e' ∷ b't' ∷ []

abbrev pub setex_name : Bytes
setex_name = b's' ∷ b'e' ∷ b't' ∷ b'e' ∷ b'x' ∷ []

abbrev pub del_name : Bytes
del_name = b'd' ∷ b'e' ∷ b'l' ∷ []

abbrev pub hmset_name : Bytes
hmset_name = b'h' ∷ b'm' ∷ b's' ∷ b'e' ∷ b't' ∷ []

unfoldable pub batchable_cmds : List Bytes
batchable_cmds = set_name ∷ setex_name ∷ del_name ∷ hmset_name ∷ []

unfoldable pub is_batchable_write : Bytes → Bool
unfolding batchable_cmds contains
is_batchable_write name = contains batchable_cmds name

unfoldable pub is_need_abort_error : Error → Bool
is_need_abort_error too_much_batch_size = false
is_need_abort_error _ = true

abbrev is_panic : Error → Bool
is_panic index_panic = true
is_panic _ = false

unfoldable pub answers : List ℕ → List Reply → List (ℕ × Response)
answers (id ∷ ids) (v ∷ vs) = (id, reply v) ∷ answers ids vs
answers _ _ = []

unfoldable pub all_failed : List ℕ → Error → List (ℕ × Response)
all_failed [] e = []
all_failed (id ∷ ids) e = (id, failed e) ∷ all_failed ids e

-- common.CutNamesapce, whose error the caller drops: the key is nil then.
cut_behind : Bytes → Bytes
cut_behind [] = []
cut_behind (c ∷ key) = let rest = cut_behind key in if c == table_start_sep then key else rest

unfoldable pub cut_namespace : Bytes → Bytes
unfolding cut_behind
cut_namespace [] = []
cut_namespace (c ∷ key) = if c == table_start_sep then [] else cut_behind key

-- preCheckConflict. A command without a check is a conflict.
pub pre_check_conflict : ConflictRouter → VersionStore → List Bytes → ℕ → Result ConflictState
pre_check_conflict checks versions [] ts = err index_panic
pre_check_conflict checks versions (cmd ∷ args) ts = elim (get_handler checks (to_lower cmd)) [
  | none ↦ ok conflict
  | some f ↦ f versions (cmd ∷ args) ts
]

module _ {E : Engine} where
  unfoldable pub trigger : StateMachine E → ℕ → Response → StateMachine E
  trigger sm id r = record sm { triggered = sm.triggered ++ ((id, r) ∷ []) }

  pub begun_with :
      StateMachine E → Result (Unit {0}) × RockDb E → Result (Unit {0}) × StateMachine E
  begun_with sm (err e, db) = (err e, sm)
  begun_with sm (ok u, db) = (ok tt, record sm { store = db; batching = true })

  unfoldable pub begin_batch : StateMachine E → Result (Unit {0}) × StateMachine E
  unfolding begun_with
  begin_batch sm = begun_with sm (begin_batch_write sm.store)

  unfoldable pub add_batch_key : StateMachine E → Bytes → StateMachine E
  add_batch_key sm pk = record sm { dup_check = pk ∷ sm.dup_check }

  unfoldable pub add_batch_rsp : StateMachine E → ℕ → Reply → StateMachine E
  add_batch_rsp sm id v = record sm {
    batch_req_ids = sm.batch_req_ids ++ (id ∷ []);
    batch_rsps = sm.batch_rsps ++ (v ∷ []);
  }

  unfoldable pub is_batchable : StateMachine E → Bytes → Bytes → List Bytes → Bool
  is_batchable sm name pk args =
      if eq_bytes name del_name && ltb 2 (length args)
      then false
      else is_batchable_write name
        && (ltb (length sm.batch_req_ids) max_db_batch_cmd_num && not (contains sm.dup_check pk))

  unfoldable pub commit_batch : StateMachine E → StateMachine E
  commit_batch sm = if not sm.batching then sm else record {
    store = commit_batch_write sm.store;
    batching = false;
    batch_req_ids = [];
    batch_rsps = [];
    dup_check = [];
    triggered = sm.triggered ++ answers sm.batch_req_ids sm.batch_rsps;
    crashed = sm.crashed;
  }

  unfoldable pub abort_batch_for_error : StateMachine E → Error → StateMachine E
  abort_batch_for_error sm e =
      if not sm.batching then record sm { store = abort_batch sm.store } else record {
        store = abort_batch sm.store;
        batching = false;
        batch_req_ids = [];
        batch_rsps = [];
        dup_check = [];
        triggered = sm.triggered ++ all_failed sm.batch_req_ids e;
        crashed = sm.crashed;
      }

  -- What is done with the result of a handler.
  pub handled : StateMachine E → ℕ → Result Reply × RockDb E → StateMachine E
  unfolding trigger add_batch_rsp abort_batch_for_error
  handled sm id (ok v, db) =
      let sm' = record sm { store = db } in
      if sm.batching then add_batch_rsp sm' id v else trigger sm' id (reply v)
  handled sm id (err e, db) =
      let sm' = record sm { store = db } in
      if is_panic e
      then record sm' { crashed = true }
      else if is_need_abort_error e
      then abort_batch_for_error (trigger sm' id (failed e)) e
      else trigger sm' id (failed e)

  pub run_handler :
      Option (Handler E) → StateMachine E → ℕ → ℕ → Bytes → List Bytes → StateMachine E
  unfolding handled add_batch_key trigger
  run_handler none sm id ts pk args = trigger sm id (failed invalid_command)
  run_handler (some h) sm id ts pk args =
      handled (if sm.batching then add_batch_key sm pk else sm) id (h args ts sm.store)

  pub run_begun :
      Result (Unit {0}) × StateMachine E → (StateMachine E → StateMachine E) → ℕ → StateMachine E
  unfolding trigger
  run_begun (err e, sm) run id = trigger sm id (failed e)
  run_begun (ok u, sm) run id = run sm

  -- A command: it joins the batch, or begins one, or ends it and runs by itself.
  unfoldable pub apply_command :
      List (Bytes × Handler E) → StateMachine E → ℕ → ℕ → List Bytes → StateMachine E
  unfolding run_handler run_begun
  apply_command router sm id ts (cmd ∷ pk ∷ args) =
      let name = to_lower cmd in
      let whole = cmd ∷ pk ∷ args in
      let run = λ (s : StateMachine E). run_handler (find_handler router name) s id ts pk whole in
      if not (is_batchable sm name pk whole)
      then run (commit_batch sm)
      else if sm.batching
      then run sm
      else run_begun (begin_batch sm) run id
  apply_command router sm id ts _ = record sm { crashed = true }

module _ {E : Engine} (router : List (Bytes × Handler E)) (checks : ConflictRouter)
    (versions : RockDb E → VersionStore) (list : ReqList) where
  -- A command of the cluster syncer that conflicts is answered and left out.
  pub apply_parsed : StateMachine E → ℕ → ℕ → List Bytes → StateMachine E
  unfolding apply_command trigger
  apply_parsed sm id ts args =
      if not (not list.is_replaying && list.from_syncer && not list.syncer_only)
      then apply_command router sm id ts args
      else elim (pre_check_conflict checks (versions sm.store) args ts) [
        | err e ↦ record sm { crashed = true }
        | ok conflict ↦ trigger sm id (reply nil)
        | ok _ ↦ apply_command router sm id ts args
      ]

  pub apply_request : StateMachine E → Request → StateMachine E
  unfolding apply_parsed trigger
  apply_request sm r =
      let ts = if list.list_ts == 0 then r.timestamp else list.list_ts in
      let id = if r.req_id == 0 then list.list_id else r.req_id in
      if sm.crashed then sm else elim (r.req_data) [
        | redis args ↦ apply_parsed sm id ts args
        | redis_v2 (cmd ∷ key ∷ args) ↦ apply_parsed sm id ts (cmd ∷ cut_namespace key ∷ args)
        | redis_v2 _ ↦ record sm { crashed = true }
        | unparsed e ↦ trigger sm id (failed e)
        | unknown ↦ trigger (commit_batch sm) id (failed unknown_data)
      ]

  pub apply_requests : StateMachine E → List Request → StateMachine E
  unfolding apply_request
  apply_requests sm [] = sm
  apply_requests sm (r ∷ rs) = apply_requests (apply_request sm r) rs

  -- The end of ApplyRaftRequest. An entry that has an identifier of its own ends its batch, and
  -- answers for the entry.
  pub apply_raft_request : StateMachine E → List Request → StateMachine E
  unfolding apply_requests
  apply_raft_request sm rs =
      let sm' = apply_requests sm rs in
      if list.list_id == 0 then sm' else trigger (commit_batch sm') list.list_id (reply nil)

-- The entries of one round of node/node.go's applyEntries that are not configuration changes: they
-- share a batch, which ends with the round.
pub record Entry : Type 0 where
  pub req_list : ReqList
  pub reqs : List Request

module _ {E : Engine} (router : List (Bytes × Handler E)) (checks : ConflictRouter)
    (versions : RockDb E → VersionStore) where
  pub apply_each : StateMachine E → List Entry → StateMachine E
  unfolding apply_raft_request
  apply_each sm [] = sm
  apply_each sm (e ∷ es) =
      apply_each (apply_raft_request router checks versions e.req_list sm e.reqs) es

  unfoldable pub apply_entries : StateMachine E → List Entry → StateMachine E
  unfolding apply_each
  apply_entries sm es = commit_batch (apply_each sm es)
