-- ===== src/Conflict.antt =====
-- node/conflict_checker.go: which writes that another cluster sends are refused, because the keys
-- they write may have been written here since. The handlers read `cmd.Args` and panic where it is
-- too short; an error of the store is only logged, so its version calls are the versions they give.
pub mod Checks
mod Examples
use zan_redis_db.Prelude.{
  ℕ, ◌+◌, ◌^◌, Bool, true, false, not, ◌&&◌, Option, none, some, List, [], ◌∷◌, map, ltb, leb, ◌==◌,
  if◌then◌else◌,
}
use zan_redis_db.Result.{Result, ok, err, index_panic, ◌>>=◌}
use zan_redis_db.Bytes.{Bytes, lt_int64, eq_bytes}

pub data ConflictState : Type 0 where
  no_conflict maybe_conflict conflict : ConflictState

-- The version calls of rockredis that the checks use, and the time of the last change to
-- master, GetSyncedOnlyChangedTs. All times are int64 patterns.
pub record VersionStore : Type 0 where
  pub kv_get_ver : Bytes → ℕ
  pub h_get_ver : Bytes → Bytes → ℕ
  pub l_ver : Bytes → ℕ
  pub bit_get_ver : Bytes → ℕ
  pub s_get_ver : Bytes → ℕ
  pub z_get_ver : Bytes → ℕ
  pub synced_only_changed_ts : ℕ

-- `cmd.Args[1]`, `cmd.Args[1:]` and `cmd.Args[2:]`.
unfoldable pub arg_one : List Bytes → Result Bytes
arg_one (name ∷ key ∷ args) = ok key
arg_one _ = err index_panic

unfoldable pub args_from_one : List Bytes → Result (List Bytes)
args_from_one (name ∷ args) = ok args
args_from_one [] = err index_panic

unfoldable pub args_from_two : List Bytes → Result (List Bytes)
args_from_two (name ∷ key ∷ args) = ok args
args_from_two _ = err index_panic

unfoldable pub check_kv_conflict : VersionStore → List Bytes → ℕ → Result ConflictState
check_kv_conflict store args req_ts = do
  key ← arg_one args
  ok (if lt_int64 (store.kv_get_ver key) req_ts then no_conflict else conflict)

-- The loops with `i += 2`, up to `len - 1`.
unfoldable pub check_pairs : (Bytes → ℕ) → ℕ → List Bytes → ConflictState
check_pairs ver req_ts (k ∷ v ∷ kvs) =
    let rest = check_pairs ver req_ts kvs in
    if not (lt_int64 (ver k) req_ts) then conflict else rest
check_pairs ver req_ts (k ∷ []) = no_conflict
check_pairs ver req_ts [] = no_conflict

unfoldable pub check_kv_kv_conflict : VersionStore → List Bytes → ℕ → Result ConflictState
check_kv_kv_conflict store args req_ts = do
  kvs ← args_from_one args
  ok (check_pairs store.kv_get_ver req_ts kvs)

-- The key is read in the loop, where the arguments are known to reach it.
unfoldable pub check_hash_kfv_conflict : VersionStore → List Bytes → ℕ → Result ConflictState
check_hash_kfv_conflict store args req_ts = do
  fvs ← args_from_two args
  key ← arg_one args
  ok (check_pairs (store.h_get_ver key) req_ts fvs)

unfoldable pub check_fields : (Bytes → ℕ) → ℕ → List Bytes → ConflictState
check_fields ver req_ts [] = no_conflict
check_fields ver req_ts (f ∷ fields) =
    let rest = check_fields ver req_ts fields in
    if not (lt_int64 (ver f) req_ts) then conflict else rest

unfoldable pub check_hash_kff_conflict : VersionStore → List Bytes → ℕ → Result ConflictState
check_hash_kff_conflict store args req_ts = do
  fields ← args_from_two args
  key ← arg_one args
  ok (check_fields (store.h_get_ver key) req_ts fields)

-- What the checks of lists, bitmaps, sets and sorted sets share; they differ in the answer where
-- the write is not known to be safe.
unfoldable pub check_switched : ConflictState → ℕ → ℕ → ℕ → ConflictState
check_switched otherwise switch old_ts req_ts =
    if not (lt_int64 old_ts switch) && not (lt_int64 req_ts switch)
    then otherwise
    else if lt_int64 old_ts req_ts
    then no_conflict
    else otherwise

unfoldable pub check_list_conflict : VersionStore → List Bytes → ℕ → Result ConflictState
check_list_conflict store args req_ts = do
  key ← arg_one args
  ok (check_switched conflict store.synced_only_changed_ts (store.l_ver key) req_ts)

unfoldable pub check_bitmap_conflict : VersionStore → List Bytes → ℕ → Result ConflictState
check_bitmap_conflict store args req_ts = do
  key ← arg_one args
  ok (check_switched maybe_conflict store.synced_only_changed_ts (store.bit_get_ver key) req_ts)

unfoldable pub check_set_conflict : VersionStore → List Bytes → ℕ → Result ConflictState
check_set_conflict store args req_ts = do
  key ← arg_one args
  ok (check_switched maybe_conflict store.synced_only_changed_ts (store.s_get_ver key) req_ts)

unfoldable pub check_zset_conflict : VersionStore → List Bytes → ℕ → Result ConflictState
check_zset_conflict store args req_ts = do
  key ← arg_one args
  ok (check_switched maybe_conflict store.synced_only_changed_ts (store.z_get_ver key) req_ts)

abbrev pub check_hll_conflict : VersionStore → List Bytes → ℕ → Result ConflictState
check_hll_conflict store args req_ts = ok no_conflict

abbrev pub check_json_conflict : VersionStore → List Bytes → ℕ → Result ConflictState
check_json_conflict store args req_ts = ok conflict

-- The router. `strings.ToLower` on the ASCII names of commands.
unfoldable pub to_lower : Bytes → Bytes
to_lower = map (λ c. if leb 65 c && leb c 90 then c + 32 else c)

abbrev pub ConflictCheckFunc : Type 0
ConflictCheckFunc = VersionStore → List Bytes → ℕ → Result ConflictState

pub record ConflictRouter : Type 0 where
  pub check_cmds : List (Bytes × ConflictCheckFunc)

unfoldable pub new_conflict_router : ConflictRouter
new_conflict_router = record { check_cmds = [] }

unfoldable pub find_check : List (Bytes × ConflictCheckFunc) → Bytes → Option ConflictCheckFunc
find_check [] name = none
find_check ((n, f) ∷ cmds) name = if eq_bytes n name then some f else find_check cmds name

unfoldable pub get_handler : ConflictRouter → Bytes → Option ConflictCheckFunc
get_handler r name = find_check r.check_cmds (to_lower name)

-- An entry that is put in front hides an older one of the same name, as an assignment replaces it.
unfoldable pub add_check :
    Option ConflictCheckFunc → ConflictRouter → Bytes → ConflictCheckFunc → Bool × ConflictRouter
add_check (some g) r name f = (false, r)
add_check none r name f = (true, record { check_cmds = (name, f) ∷ r.check_cmds })

unfoldable pub register : ConflictRouter → Bytes → ConflictCheckFunc → Bool × ConflictRouter
register r name f = add_check (get_handler r name) r name f
