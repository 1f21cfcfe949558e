-- ===== src/StateMachine/Handlers.antt =====
-- The handlers of the state machine in node/keys.go, node/ttl.go, node/list.go and node/set.go, and
-- the router that node/node_cmd_reg.go fills: those of the commands on key-value pairs, lists and
-- sets, and of the expiry of collections.
use zan_redis_db.Prelude.{◌-◌, ◌^◌, ◌==◌, ℕ, ◌+◌, Option, none, some, List, [], ◌∷◌, if◌then◌else◌}
use zan_redis_db.Result.{int_range, Result, ok, err, index_panic, ◌>>=◌}
use zan_redis_db.Bytes.{Bytes, eq_bytes}
use zan_redis_db.Engine.{Engine, RockDb, or_return}
use zan_redis_db.Kv.Number.{str_int64}
use zan_redis_db.Kv.Write.{
  kv_set, kv_get_set, set_nx, set_ex, mset, incr, del_keys, append, set_range, bit_set_old,
  kv_expire, kv_persist,
}
use zan_redis_db.Key.{hash_type, set_type, list_type}
use zan_redis_db.Collection.Ttl.{coll_expire, coll_persist}
use zan_redis_db.Sets.Write.{s_add, s_rem, s_pop, s_clear, s_mclear}
use zan_redis_db.Lists.{head_end, tail_end}
use zan_redis_db.Lists.Fix.{fix_list_key}
use zan_redis_db.Lists.Write.{push_batch, lpop}
use zan_redis_db.Lists.Trim.{l_set, ltrim2, l_clear}

pub data Reply : Type 0 where
  nil : Reply
  int : ℕ → Reply
  bulk : Bytes → Reply
  bulks : List Bytes → Reply

abbrev pub Handler : Engine → Type 0
Handler E = List Bytes → ℕ → RockDb E → Result Reply × RockDb E

abbrev pub find_handler : {E : Engine} → List (Bytes × Handler E) → Bytes → Option (Handler E)
find_handler [] name = none
find_handler ((n, h) ∷ router) name = if eq_bytes n name then some h else find_handler router name

bulk_or_nil : Option Bytes → Reply
bulk_or_nil none = nil
bulk_or_nil (some v) = bulk v

-- What strconv.Atoi gives beside its error: the nearest int, or zero where the text is no number.
count_read : Bytes → Result ℕ → ℕ
count_read (c ∷ s) (err int_range) = if c == b'-' then 2 ^ 63 else 2 ^ 63 - 1
count_read s (err e) = 0
count_read s (ok n) = n

first_or_nil : List Bytes → Reply
first_or_nil [] = nil
first_or_nil (v ∷ vals) = bulk v

-- A key without a value makes the loop panic.
pairs : List Bytes → Result (List (Bytes × Bytes))
pairs [] = ok []
pairs (k ∷ v ∷ args) = do kvs ← pairs args; ok ((k, v) ∷ kvs)
pairs (k ∷ []) = err index_panic

module _ {E : Engine} where
  -- `return nil, err`, and the results that are numbers or values.
  abbrev pub no_value : Result (Unit {0}) × RockDb E → Result Reply × RockDb E
  no_value (r, db) = ((r >>= λ u. ok nil), db)

  abbrev pub number : Result ℕ × RockDb E → Result Reply × RockDb E
  number (r, db) = ((r >>= λ n. ok (int n)), db)

  value : Result (Option Bytes) × RockDb E → Result Reply × RockDb E
  value (r, db) = ((r >>= λ v. ok (bulk_or_nil v)), db)

  -- A command with too few arguments makes its handler panic.
  unfoldable pub local_set_command : Handler E
  local_set_command (cmd ∷ key ∷ v ∷ args) ts db = no_value (kv_set db ts key v)
  local_set_command _ ts db = (err index_panic, db)

  pub local_get_set_command : Handler E
  unfolding value bulk_or_nil
  local_get_set_command (cmd ∷ key ∷ v ∷ args) ts db = value (kv_get_set db ts key v)
  local_get_set_command _ ts db = (err index_panic, db)

  pub local_setnx_command : Handler E
  local_setnx_command (cmd ∷ key ∷ v ∷ args) ts db = number (set_nx db ts key v)
  local_setnx_command _ ts db = (err index_panic, db)

  pub local_mset_command : Handler E
  unfolding pairs
  local_mset_command (cmd ∷ args) ts db =
      or_return (pairs args) db (λ kvs. no_value (mset db ts kvs))
  local_mset_command [] ts db = (err index_panic, db)

  pub local_incr_command : Handler E
  local_incr_command (cmd ∷ key ∷ args) ts db = number (incr db ts key 1)
  local_incr_command _ ts db = (err index_panic, db)

  pub local_incr_by_command : Handler E
  local_incr_by_command (cmd ∷ key ∷ n ∷ args) ts db =
      or_return (str_int64 n) db (λ delta. number (incr db ts key delta))
  local_incr_by_command _ ts db = (err index_panic, db)

  unfoldable pub local_del_command : Handler E
  local_del_command (cmd ∷ keys) ts db = number (del_keys db keys)
  local_del_command [] ts db = (err index_panic, db)

  pub local_append_command : Handler E
  local_append_command (cmd ∷ key ∷ v ∷ args) ts db = number (append db ts key v)
  local_append_command _ ts db = (err index_panic, db)

  set_range_at : Bytes → Bytes → Handler E
  set_range_at key offset (v ∷ args) ts db =
      or_return (str_int64 offset) db (λ n. number (set_range db ts key n v))
  set_range_at key offset [] ts db = or_return (str_int64 offset) db (λ n. (err index_panic, db))

  pub local_set_range_command : Handler E
  unfolding set_range_at
  local_set_range_command (cmd ∷ key ∷ offset ∷ args) ts db = set_range_at key offset args ts db
  local_set_range_command _ ts db = (err index_panic, db)

  set_bit_at : Bytes → Bytes → Handler E
  set_bit_at key offset (on ∷ args) ts db =
      or_return (str_int64 offset) db
        (λ n. or_return (str_int64 on) db (λ b. number (bit_set_old db ts key n b)))
  set_bit_at key offset [] ts db = or_return (str_int64 offset) db (λ n. (err index_panic, db))

  pub local_bit_set_command : Handler E
  unfolding set_bit_at
  local_bit_set_command (cmd ∷ key ∷ offset ∷ args) ts db = set_bit_at key offset args ts db
  local_bit_set_command _ ts db = (err index_panic, db)

  set_ex_at : Bytes → Bytes → Handler E
  set_ex_at key duration (v ∷ args) ts db =
      or_return (str_int64 duration) db (λ n. no_value (set_ex db ts key n v))
  set_ex_at key duration [] ts db = or_return (str_int64 duration) db (λ n. (err index_panic, db))

  -- strconv.Atoi reads an int, which has 64 bits.
  unfoldable pub local_setex_command : Handler E
  unfolding set_ex_at
  local_setex_command (cmd ∷ key ∷ duration ∷ args) ts db = set_ex_at key duration args ts db
  local_setex_command _ ts db = (err index_panic, db)

  pub local_expire_command : Handler E
  local_expire_command (cmd ∷ key ∷ duration ∷ args) ts db =
      or_return (str_int64 duration) db (λ n. number (kv_expire db ts key n))
  local_expire_command _ ts db = (err index_panic, db)

  pub local_persist_command : Handler E
  local_persist_command (cmd ∷ key ∷ args) ts db = number (kv_persist db ts key)
  local_persist_command _ ts db = (err index_panic, db)

  pub local_lfixkey_command : Handler E
  local_lfixkey_command (cmd ∷ key ∷ args) ts db = (ok nil, fix_list_key db ts key)
  local_lfixkey_command _ ts db = (err index_panic, db)

  pub local_lpop_command : Handler E
  unfolding value bulk_or_nil
  local_lpop_command (cmd ∷ key ∷ args) ts db = value (lpop db ts key head_end)
  local_lpop_command _ ts db = (err index_panic, db)

  pub local_rpop_command : Handler E
  unfolding value bulk_or_nil
  local_rpop_command (cmd ∷ key ∷ args) ts db = value (lpop db ts key tail_end)
  local_rpop_command _ ts db = (err index_panic, db)

  pub local_lpush_command : Handler E
  local_lpush_command (cmd ∷ key ∷ args) ts db = number (push_batch db ts key head_end args)
  local_lpush_command _ ts db = (err index_panic, db)

  pub local_rpush_command : Handler E
  local_rpush_command (cmd ∷ key ∷ args) ts db = number (push_batch db ts key tail_end args)
  local_rpush_command _ ts db = (err index_panic, db)

  l_set_at : Bytes → Bytes → Handler E
  l_set_at key index (v ∷ args) ts db =
      or_return (str_int64 index) db (λ n. no_value (l_set db ts key n v))
  l_set_at key index [] ts db = or_return (str_int64 index) db (λ n. (err index_panic, db))

  pub local_lset_command : Handler E
  unfolding l_set_at
  local_lset_command (cmd ∷ key ∷ index ∷ args) ts db = l_set_at key index args ts db
  local_lset_command _ ts db = (err index_panic, db)

  ltrim_at : Bytes → Bytes → Handler E
  ltrim_at key start (stop ∷ args) ts db =
      or_return (str_int64 start) db
        (λ from. or_return (str_int64 stop) db (λ to. no_value (ltrim2 db ts key from to)))
  ltrim_at key start [] ts db = or_return (str_int64 start) db (λ n. (err index_panic, db))

  pub local_ltrim_command : Handler E
  unfolding ltrim_at
  local_ltrim_command (cmd ∷ key ∷ start ∷ args) ts db = ltrim_at key start args ts db
  local_ltrim_command _ ts db = (err index_panic, db)

  pub local_lclear_command : Handler E
  local_lclear_command (cmd ∷ key ∷ args) ts db = number (l_clear db ts key)
  local_lclear_command _ ts db = (err index_panic, db)

  -- The loop of LMCLEAR stops at the first error.
  clear_each : ℕ → List Bytes → ℕ → RockDb E → Result ℕ × RockDb E
  clear_each count [] ts db = (ok count, db)
  clear_each count (key ∷ keys) ts db =
      let done = l_clear db ts key in
      let rest = clear_each (count + 1) keys ts (done.1) in or_return (done.0) (done.1) (λ n. rest)

  pub local_lmclear_command : Handler E
  unfolding clear_each
  local_lmclear_command (cmd ∷ keys) ts db = number (clear_each 0 keys ts db)
  local_lmclear_command [] ts db = (err index_panic, db)

  pub local_sadd : Handler E
  local_sadd (cmd ∷ key ∷ args) ts db = number (s_add db ts key args)
  local_sadd _ ts db = (err index_panic, db)

  pub local_srem : Handler E
  local_srem (cmd ∷ key ∷ args) ts db = number (s_rem db ts key args)
  local_srem _ ts db = (err index_panic, db)

  -- A count is given in a command of three words only, and its error is dropped.
  pub local_spop : Handler E
  unfolding count_read first_or_nil
  local_spop (cmd ∷ key ∷ n ∷ []) ts db =
      let done = s_pop db ts key (count_read n (str_int64 n)) in
      ((done.0 >>= λ vals. ok (bulks vals)), done.1)
  local_spop (cmd ∷ key ∷ args) ts db =
      let done = s_pop db ts key 1 in ((done.0 >>= λ vals. ok (first_or_nil vals)), done.1)
  local_spop _ ts db = (err index_panic, db)

  pub local_sclear : Handler E
  local_sclear (cmd ∷ key ∷ args) ts db = number (s_clear db ts key)
  local_sclear _ ts db = (err index_panic, db)

  pub local_smclear : Handler E
  local_smclear (cmd ∷ keys) ts db = number (s_mclear db keys)
  local_smclear [] ts db = (err index_panic, db)

  -- LEXPIRE, SEXPIRE and HEXPIRE, and LPERSIST, SPERSIST and HPERSIST, by the data type.
  pub local_coll_expire : ℕ → Handler E
  local_coll_expire dt (cmd ∷ key ∷ duration ∷ args) ts db =
      or_return (str_int64 duration) db (λ n. number (coll_expire db ts dt key n))
  local_coll_expire dt _ ts db = (err index_panic, db)

  pub local_coll_persist : ℕ → Handler E
  local_coll_persist dt (cmd ∷ key ∷ args) ts db = number (coll_persist db ts dt key)
  local_coll_persist dt _ ts db = (err index_panic, db)

  -- What registerHandlers fills the router with, for these commands, in its order.
  unfoldable pub internal_cmds : List (Bytes × Handler E)
  internal_cmds =
      (b'd' ∷ b'e' ∷ b'l' ∷ [], local_del_command)
      ∷ (b's' ∷ b'e' ∷ b't' ∷ [], local_set_command)
      ∷ (b'a' ∷ b'p' ∷ b'p' ∷ b'e' ∷ b'n' ∷ b'd' ∷ [], local_append_command)
      ∷ (b's' ∷ b'e' ∷ b't' ∷ b'r' ∷ b'a' ∷ b'n' ∷ b'g' ∷ b'e' ∷ [], local_set_range_command)
      ∷ (b'g' ∷ b'e' ∷ b't' ∷ b's' ∷ b'e' ∷ b't' ∷ [], local_get_set_command)
      ∷ (b's' ∷ b'e' ∷ b't' ∷ b'b' ∷ b'i' ∷ b't' ∷ [], local_bit_set_command)
      ∷ (b's' ∷ b'e' ∷ b't' ∷ b'n' ∷ b'x' ∷ [], local_setnx_command)
      ∷ (b'm' ∷ b's' ∷ b'e' ∷ b't' ∷ [], local_mset_command)
      ∷ (b'i' ∷ b'n' ∷ b'c' ∷ b'r' ∷ [], local_incr_command)
      ∷ (b'i' ∷ b'n' ∷ b'c' ∷ b'r' ∷ b'b' ∷ b'y' ∷ [], local_incr_by_command)
      ∷ (b'l' ∷ b'f' ∷ b'i' ∷ b'x' ∷ b'k' ∷ b'e' ∷ b'y' ∷ [], local_lfixkey_command)
      ∷ (b'l' ∷ b'p' ∷ b'o' ∷ b'p' ∷ [], local_lpop_command)
      ∷ (b'l' ∷ b'p' ∷ b'u' ∷ b's' ∷ b'h' ∷ [], local_lpush_command)
      ∷ (b'l' ∷ b's' ∷ b'e' ∷ b't' ∷ [], local_lset_command)
      ∷ (b'l' ∷ b't' ∷ b'r' ∷ b'i' ∷ b'm' ∷ [], local_ltrim_command)
      ∷ (b'r' ∷ b'p' ∷ b'o' ∷ b'p' ∷ [], local_rpop_command)
      ∷ (b'r' ∷ b'p' ∷ b'u' ∷ b's' ∷ b'h' ∷ [], local_rpush_command)
      ∷ (b'l' ∷ b'c' ∷ b'l' ∷ b'e' ∷ b'a' ∷ b'r' ∷ [], local_lclear_command)
      ∷ (b'l' ∷ b'm' ∷ b'c' ∷ b'l' ∷ b'e' ∷ b'a' ∷ b'r' ∷ [], local_lmclear_command)
      ∷ (b's' ∷ b'a' ∷ b'd' ∷ b'd' ∷ [], local_sadd)
      ∷ (b's' ∷ b'r' ∷ b'e' ∷ b'm' ∷ [], local_srem)
      ∷ (b's' ∷ b'c' ∷ b'l' ∷ b'e' ∷ b'a' ∷ b'r' ∷ [], local_sclear)
      ∷ (b's' ∷ b'm' ∷ b'c' ∷ b'l' ∷ b'e' ∷ b'a' ∷ b'r' ∷ [], local_smclear)
      ∷ (b's' ∷ b'p' ∷ b'o' ∷ b'p' ∷ [], local_spop)
      ∷ (b's' ∷ b'e' ∷ b't' ∷ b'e' ∷ b'x' ∷ [], local_setex_command)
      ∷ (b'e' ∷ b'x' ∷ b'p' ∷ b'i' ∷ b'r' ∷ b'e' ∷ [], local_expire_command)
      ∷ (b'l' ∷ b'e' ∷ b'x' ∷ b'p' ∷ b'i' ∷ b'r' ∷ b'e' ∷ [], local_coll_expire list_type)
      ∷ (b'h' ∷ b'e' ∷ b'x' ∷ b'p' ∷ b'i' ∷ b'r' ∷ b'e' ∷ [], local_coll_expire hash_type)
      ∷ (b's' ∷ b'e' ∷ b'x' ∷ b'p' ∷ b'i' ∷ b'r' ∷ b'e' ∷ [], local_coll_expire set_type)
      ∷ (b'p' ∷ b'e' ∷ b'r' ∷ b's' ∷ b'i' ∷ b's' ∷ b't' ∷ [], local_persist_command)
      ∷ (b'h' ∷ b'p' ∷ b'e' ∷ b'r' ∷ b's' ∷ b'i' ∷ b's' ∷ b't' ∷ [], local_coll_persist hash_type)
      ∷ (b'l' ∷ b'p' ∷ b'e' ∷ b'r' ∷ b's' ∷ b'i' ∷ b's' ∷ b't' ∷ [], local_coll_persist list_type)
      ∷ (b's' ∷ b'p' ∷ b'e' ∷ b'r' ∷ b's' ∷ b'i' ∷ b's' ∷ b't' ∷ [], local_coll_persist set_type)
      ∷ []
