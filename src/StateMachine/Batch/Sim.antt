-- ===== src/StateMachine/Batch/Sim.antt =====
-- The state of a batch beside a store that ran the same commands one by one.
use mathlib.Core.Path.{subst}
use zan_redis_db.Prelude.{
  ℕ, ◌≡◌, refl, sym, ap, ◌∙◌, arith, Bool, true, false, not, ◌||◌, Option, some, List, [], ◌∷◌,
  ◌++◌, length, if◌then◌else◌, inl, inr, Bool-cases, append_assoc, append-nil, length-append,
}
use zan_redis_db.Result.{Result, ok}
use zan_redis_db.Bytes.{contains, Bytes, eq_bytes}
use zan_redis_db.Key.{encode_kv_key}
use zan_redis_db.Engine.{
  Engine, RockDb, WriteOp, after_all, add_ops, begin_batch_write, commit_batch_write,
}
use zan_redis_db.Engine.Batch.{after_all-append}
use zan_redis_db.Kv.{is_some}
use zan_redis_db.Kv.Effect.{Applied}
use zan_redis_db.Kv.Write.{del_count}
use zan_redis_db.StateMachine.{
  StateMachine, Response, reply, answers, trigger, begin_batch, begun_with, add_batch_key,
  add_batch_rsp, commit_batch, handled, run_handler,
}
use zan_redis_db.StateMachine.Handlers.{Reply, int}
use zan_redis_db.StateMachine.Batch.Commands.{
  KvCommand, set, setex, del, key_of, args_of, handler_of, IsFine, runs, ops_of, reply_of,
  ops_of-SetsOnly, left_by,
}

-- `db` is the store that ran the commands of the machine one by one, and `out` are its answers.
pub record Sim {E : Engine} (sm : StateMachine E) (db : RockDb E) (out : List (ℕ × Response))
    : Type 0 where
  pub enable : sm.store.enable_table_counter ≡ db.enable_table_counter
  pub estimate : sm.store.estimate_table_counter ≡ db.estimate_table_counter
  pub clean : db.wb ≡ []
  pub unbatched : db.is_batching ≡ false
  pub same_batching : sm.store.is_batching ≡ sm.batching
  pub idle_wb : sm.batching ≡ false → sm.store.wb ≡ []
  pub idle_dup : sm.batching ≡ false → sm.dup_check ≡ []
  pub idle_ids : sm.batching ≡ false → sm.batch_req_ids ≡ []
  pub pending :
      (key : Bytes)
      → after_all E.merged sm.store.wb (encode_kv_key key) (E.get sm.store.eng (encode_kv_key key))
        ≡ E.get db.eng (encode_kv_key key)
  pub untouched :
      (key : Bytes)
      → contains sm.dup_check key ≡ false
      → E.get sm.store.eng (encode_kv_key key) ≡ E.get db.eng (encode_kv_key key)
  pub answered : sm.triggered ++ answers sm.batch_req_ids sm.batch_rsps ≡ out
  pub paired : length sm.batch_req_ids ≡ length sm.batch_rsps
  pub running : sm.crashed ≡ false

answers-append :
    (ids : List ℕ) (vs : List Reply) (id : ℕ) (v : Reply)
    → length ids ≡ length vs
    → answers (ids ++ id ∷ []) (vs ++ v ∷ []) ≡ answers ids vs ++ (id, reply v) ∷ []
unfolding answers
answers-append [] [] id v h = refl
answers-append [] (w ∷ vs) id v h = absurd (omega arith)
answers-append (i ∷ ids) [] id v h = absurd (omega arith)
answers-append (i ∷ ids) (w ∷ vs) id v h =
    ap (λ (t : List (ℕ × Response)). (i, reply w) ∷ t) (answers-append ids vs id v (omega arith))

handled-ok :
    {E : Engine} (sm : StateMachine E) (id : ℕ) (p : Result Reply × RockDb E) (v : Reply)
    → p.0 ≡ ok v
    → handled sm id p ≡ (
        if sm.batching
        then add_batch_rsp (record sm { store = p.1 }) id v
        else trigger (record sm { store = p.1 }) id (reply v))
unfolding handled
handled-ok sm id (r, db) v e = rw e refl

-- The number that DEL answers depends on the settings, and on the key that it deletes.
del_number :
    {E : Engine} (db : RockDb E) (table kk : Bytes)
    → (del_count db table kk).0 ≡ (
        if not db.enable_table_counter
        then 1
        else if db.estimate_table_counter || is_some (E.get db.eng kk)
        then 1
        else 0)
unfolding del_count
del_number db table kk = ground arith

pub reply-same :
    {E : Engine} (db db' : RockDb E) (table : Bytes) (c : KvCommand)
    → db.enable_table_counter ≡ db'.enable_table_counter
    → db.estimate_table_counter ≡ db'.estimate_table_counter
    → E.get db.eng (encode_kv_key (key_of c)) ≡ E.get db'.eng (encode_kv_key (key_of c))
    → reply_of db table c ≡ reply_of db' table c
reply-same db db' table (set key v) a b e = refl
reply-same db db' table (setex key ttl v) a b e = refl
reply-same {E = E} db db' table (del key) a b e = ap int (
    del_number db table (encode_kv_key key)
    ∙ ap
        (λ (x : Bool).
          if not x
          then 1
          else if db.estimate_table_counter || is_some (E.get db.eng (encode_kv_key key))
          then 1
          else 0)
        a
    ∙ ap
        (λ (x : Bool).
          if not db'.enable_table_counter
          then 1
          else if x || is_some (E.get db.eng (encode_kv_key key))
          then 1
          else 0)
        b
    ∙ ap
        (λ (x : Option Bytes).
          if not db'.enable_table_counter
          then 1
          else if db'.estimate_table_counter || is_some x
          then 1
          else 0)
        e
    ∙ sym (del_number db' table (encode_kv_key key)))

begin_ok :
    {E : Engine} (db : RockDb E)
    → db.is_batching ≡ false
    → begin_batch_write db ≡ (ok tt, record db { is_batching = true })
unfolding begin_batch_write
begin_ok db h = simp h refl

module _ {E : Engine} (sm : StateMachine E) (db : RockDb E) (out : List (ℕ × Response))
    (s : Sim sm db out) where
  pub commit_batch-Sim : Sim (commit_batch sm) db out × ((commit_batch sm).batching ≡ false)
  unfolding commit_batch commit_batch_write after_all answers
  commit_batch-Sim = elim (Bool-cases sm.batching) [
    | inr off ↦ simp off (s, refl)
    | inl on ↦
        let written : (key : Bytes)
            → E.get (E.write sm.store.eng sm.store.wb) (encode_kv_key key)
              ≡ E.get db.eng (encode_kv_key key) =
          λ key. E.get-write sm.store.eng sm.store.wb (encode_kv_key key) ∙ s.pending key in
        simp on (
          record {
            enable = s.enable;
            estimate = s.estimate;
            clean = s.clean;
            unbatched = s.unbatched;
            same_batching = refl;
            idle_wb = λ h. refl;
            idle_dup = λ h. refl;
            idle_ids = λ h. refl;
            pending = written;
            untouched = λ key h. written key;
            answered = append-nil _ ∙ s.answered;
            paired = refl;
            running = s.running;
          },
          refl,
        )
  ]

  -- A batch that begins.
  unfoldable pub begun : StateMachine E
  begun = record sm { store = record sm.store { is_batching = true }; batching = true }

  pub begin_batch-begun : sm.batching ≡ false → begin_batch sm ≡ (ok tt, begun)
  unfolding begin_batch begun
  begin_batch-begun off = ap (begun_with sm) (begin_ok sm.store (s.same_batching ∙ off))

  pub begun-Sim : sm.batching ≡ false → Sim begun db out
  unfolding begun
  begun-Sim off = record {
    enable = s.enable;
    estimate = s.estimate;
    clean = s.clean;
    unbatched = s.unbatched;
    same_batching = refl;
    idle_wb = λ h. cc;
    idle_dup = λ h. cc;
    idle_ids = λ h. cc;
    pending = s.pending;
    untouched = s.untouched;
    answered = s.answered;
    paired = s.paired;
    running = s.running;
  }

  pub none_checked : sm.batching ≡ false → (key : Bytes) → contains sm.dup_check key ≡ false
  unfolding contains
  none_checked off key = ap (λ (d : List Bytes). contains d key) (s.idle_dup off)

  module _ (id ts : ℕ) (c : KvCommand) (f : IsFine ts c) where
    abbrev pub after_one : RockDb E
    after_one = (handler_of c (args_of c) ts db).1

    abbrev pub answer_one : List (ℕ × Response)
    answer_one = (id, reply (reply_of db f.table c)) ∷ []

    abbrev result : Result Reply × RockDb E
    result = handler_of c (args_of c) ts sm.store

    abbrev v : Reply
    v = reply_of sm.store f.table c

    one_by_itself : Applied db after_one (ops_of db f.table ts c)
    one_by_itself = (runs db ts c f).unbatched s.clean s.unbatched

    -- What the store reads after the command.
    one_reads :
        (key : Bytes)
        → E.get after_one.eng (encode_kv_key key)
          ≡ (if eq_bytes (key_of c) key then left_by ts c else E.get db.eng (encode_kv_key key))
    one_reads key =
        one_by_itself.reads (encode_kv_key key)
        ∙ ops_of-SetsOnly db f.table ts c key (E.get db.eng (encode_kv_key key))

    same_reply : contains sm.dup_check (key_of c) ≡ false → v ≡ reply_of db f.table c
    same_reply new =
        reply-same sm.store db f.table c s.enable s.estimate (s.untouched (key_of c) new)

    -- A command by itself.
    pub alone-Sim :
        sm.batching ≡ false
        → Sim
            (run_handler (some (handler_of c)) sm id ts (key_of c) (args_of c))
            after_one
            (out ++ answer_one)
    unfolding run_handler trigger answers after_all
    alone-Sim off =
        subst (λ m. Sim m after_one (out ++ answer_one))
          (sym (
            ap (λ (b : Bool). handled (if b then add_batch_key sm (key_of c) else sm) id result) off
            ∙ handled-ok sm id result v (runs sm.store ts c f).answer
            ∙ ap
                (λ (b : Bool).
                  if b
                  then add_batch_rsp (record sm { store = result.1 }) id v
                  else trigger (record sm { store = result.1 }) id (reply v))
                off))
          triggered_Sim
      where
        w : Applied sm.store (result.1) (ops_of sm.store f.table ts c)
        w = (runs sm.store ts c f).unbatched (s.idle_wb off) (s.same_batching ∙ off)

        reads :
            (key : Bytes)
            → E.get (result.1).eng (encode_kv_key key) ≡ E.get after_one.eng (encode_kv_key key)
        reads key =
            w.reads (encode_kv_key key)
            ∙ ops_of-SetsOnly sm.store f.table ts c key (E.get sm.store.eng (encode_kv_key key))
            ∙ ap (λ (o : Option Bytes). if eq_bytes (key_of c) key then left_by ts c else o)
                (s.untouched key (none_checked off key))
            ∙ sym (one_reads key)

        no_answers : answers sm.batch_req_ids sm.batch_rsps ≡ []
        no_answers = ap (λ (ids : List ℕ). answers ids sm.batch_rsps) (s.idle_ids off)

        all_answered : sm.triggered ≡ out
        all_answered =
            sym (append-nil sm.triggered)
            ∙ ap (λ (l : List (ℕ × Response)). sm.triggered ++ l) (sym no_answers)
            ∙ s.answered

        triggered_Sim :
            Sim
              (trigger (record sm { store = result.1 }) id (reply v))
              after_one
              (out ++ answer_one)
        triggered_Sim = record {
          enable = w.same_enable ∙ s.enable ∙ sym one_by_itself.same_enable;
          estimate = w.same_estimate ∙ s.estimate ∙ sym one_by_itself.same_estimate;
          clean = one_by_itself.no_batch;
          unbatched = one_by_itself.not_batching;
          same_batching = w.not_batching ∙ sym off;
          idle_wb = λ h. w.no_batch;
          idle_dup = s.idle_dup;
          idle_ids = s.idle_ids;
          pending = λ key.
              ap
                (λ (ops : List WriteOp).
                  after_all E.merged ops (encode_kv_key key)
                    (E.get (result.1).eng (encode_kv_key key)))
                w.no_batch
              ∙ reads key;
          untouched = λ key h. reads key;
          answered =
              ap (λ (l : List (ℕ × Response)). (sm.triggered ++ (id, reply v) ∷ []) ++ l) no_answers
              ∙ append-nil (sm.triggered ++ (id, reply v) ∷ [])
              ∙ ap (λ (l : List (ℕ × Response)). l ++ (id, reply v) ∷ []) all_answered
              ∙ ap (λ (r : Reply). out ++ (id, reply r) ∷ [])
                  (same_reply (none_checked off (key_of c)));
          paired = s.paired;
          running = s.running;
        }

    -- A command that joins a batch.
    pub joined-Sim :
        sm.batching ≡ true
        → contains sm.dup_check (key_of c) ≡ false
        → Sim
            (run_handler (some (handler_of c)) sm id ts (key_of c) (args_of c))
            after_one
            (out ++ answer_one)
    unfolding run_handler add_batch_key add_batch_rsp add_ops contains
    joined-Sim on new =
        subst (λ m. Sim m after_one (out ++ answer_one))
          (sym (
            ap (λ (b : Bool). handled (if b then add_batch_key sm (key_of c) else sm) id result) on
            ∙ handled-ok (add_batch_key sm (key_of c)) id result v (runs sm.store ts c f).answer
            ∙ ap
                (λ (b : Bool).
                  if b
                  then add_batch_rsp (record (add_batch_key sm (key_of c)) { store = result.1 }) id
                      v
                  else trigger (record (add_batch_key sm (key_of c)) { store = result.1 }) id
                      (reply v))
                on))
          batched_Sim
      where
        stored : result.1 ≡ add_ops sm.store (ops_of sm.store f.table ts c)
        stored = (runs sm.store ts c f).batched (s.same_batching ∙ on)

        next : RockDb E
        next = add_ops sm.store (ops_of sm.store f.table ts c)

        reads :
            (key : Bytes)
            → after_all E.merged
                (sm.store.wb ++ ops_of sm.store f.table ts c)
                (encode_kv_key key)
                (E.get sm.store.eng (encode_kv_key key))
              ≡ E.get after_one.eng (encode_kv_key key)
        reads key =
            after_all-append E.merged sm.store.wb (ops_of sm.store f.table ts c) (encode_kv_key key)
              (E.get sm.store.eng (encode_kv_key key))
            ∙ ops_of-SetsOnly sm.store f.table ts c key _
            ∙ ap (λ (o : Option Bytes). if eq_bytes (key_of c) key then left_by ts c else o)
                (s.pending key)
            ∙ sym (one_reads key)

        others :
            (key : Bytes)
            → (eq_bytes (key_of c) key || contains sm.dup_check key) ≡ false
            → E.get sm.store.eng (encode_kv_key key) ≡ E.get after_one.eng (encode_kv_key key)
        others key h =
            let apart : eq_bytes (key_of c) key ≡ false = ground arith in
            s.untouched key (ground arith)
            ∙ sym (
                one_reads key
                ∙ ap (λ (b : Bool). if b then left_by ts c else E.get db.eng (encode_kv_key key))
                    apart)

        both : sm.batching ≡ false → ⊥
        both h = cc

        batched_Sim :
            Sim
              (add_batch_rsp (record (add_batch_key sm (key_of c)) { store = result.1 }) id v)
              after_one
              (out ++ answer_one)
        batched_Sim =
            subst
              (λ (d : RockDb E).
                Sim (add_batch_rsp (record (add_batch_key sm (key_of c)) { store = d }) id v)
                  after_one (out ++ answer_one))
              (sym stored)
              (record {
                enable = s.enable ∙ sym one_by_itself.same_enable;
                estimate = s.estimate ∙ sym one_by_itself.same_estimate;
                clean = one_by_itself.no_batch;
                unbatched = one_by_itself.not_batching;
                same_batching = s.same_batching;
                idle_wb = λ h. absurd (both h);
                idle_dup = λ h. absurd (both h);
                idle_ids = λ h. absurd (both h);
                pending = reads;
                untouched = others;
                answered =
                    ap (λ (l : List (ℕ × Response)). sm.triggered ++ l)
                      (answers-append sm.batch_req_ids sm.batch_rsps id v s.paired)
                    ∙ sym (
                        append_assoc sm.triggered (answers sm.batch_req_ids sm.batch_rsps)
                          ((id, reply v) ∷ []))
                    ∙ ap (λ (l : List (ℕ × Response)). l ++ (id, reply v) ∷ []) s.answered
                    ∙ ap (λ (r : Reply). out ++ (id, reply r) ∷ []) (same_reply new);
                paired = omega (
                  arith,
                  length-append sm.batch_req_ids (id ∷ []),
                  length-append sm.batch_rsps (v ∷ []),
                  s.paired,
                );
                running = s.running;
              })
