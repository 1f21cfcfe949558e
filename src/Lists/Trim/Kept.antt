-- ===== src/Lists/Trim/Kept.antt =====
-- LTRIM leaves the values from its start to its stop.
use zan_redis_db.Prelude.{ℕ, ◌+◌, ◌-◌, ◌≤◌, ◌<◌, List, [], ◌++◌, length, take, drop, if◌then◌else◌}
use zan_redis_db.Bytes.{Bytes, IsWord64, lt_int64}
use zan_redis_db.Expire.{HeaderMetaValue, encode_ver_key}
use zan_redis_db.Engine.{Engine, RockDb, WriteOp, add_ops, write_batch}
use zan_redis_db.Collection.{CollVerKeyInfo}
use zan_redis_db.Lists.{sub_int64}
use zan_redis_db.Lists.Model.{IsKey, IsList, last_of, info_of}
use zan_redis_db.Lists.Effect.{meta_ops}
use zan_redis_db.Lists.Trim.{front_ops, back_ops}

-- The values from `start` to `stop`.
abbrev pub kept : List Bytes → ℕ → ℕ → List Bytes
kept xs start stop = take (stop + 1 - start) (drop start xs)

module _ {E : Engine} (db : RockDb E) (ts : ℕ) (key table rk : Bytes) (h : HeaderMetaValue)
    (head : ℕ) (xs : List Bytes) (k : IsKey key table rk) (w : IsWord64 ts)
    (l : IsList db ts key table rk h head xs) (start stop : ℕ) (ordered : start ≤ stop)
    (inside : stop < length xs) where
  abbrev ver : Bytes
  ver = encode_ver_key h rk

  abbrev info : CollVerKeyInfo
  info = info_of table rk h head (last_of xs head) l.list_ts

  abbrev size : ℕ
  size = length (kept xs start stop)

  abbrev cuts : List WriteOp
  cuts =
      (if lt_int64 0 start then front_ops info head start else [])
      ++ (if lt_int64 stop (sub_int64 (length xs) 1)
          then back_ops info head (length xs) stop
          else [])

  abbrev final : RockDb E
  final =
      write_batch (add_ops (add_ops (add_ops db cuts) (meta_ops key h (head + start) size ts)) [])
