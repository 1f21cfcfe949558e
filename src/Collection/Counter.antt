-- ===== src/Collection/Counter.antt =====
-- The table counters of rockredis/t_table.go beside the keys of the data types.
use zan_redis_db.Prelude.{ℕ, ◌≡◌, refl, true, false, Option, Bool-cases, inl, inr}
use zan_redis_db.Bytes.{Bytes, neg_int64, eq_bytes, eq_bytes_refl}
use zan_redis_db.Key.{encode_table_meta_key}
use zan_redis_db.Engine.{RockDb, Engine, after, after_all}
use zan_redis_db.Collection.{incr_table_key_count, put_rocksdb_uint64}

-- A change of the counter leaves every other key alone.
pub counter_elsewhere :
    {E : Engine} (m : Bytes → Option Bytes → Option Bytes) (db : RockDb E) (name : Bytes)
    (delta : ℕ) (key : Bytes) (old : Option Bytes)
    → eq_bytes (encode_table_meta_key name) key ≡ false
    → after_all m (incr_table_key_count db name delta) key old ≡ old
unfolding incr_table_key_count after_all after
counter_elsewhere m db name delta key old e = elim (Bool-cases db.enable_table_counter) [
  | inl h ↦ rw (h, e) refl
  | inr h ↦ rw h refl
]

-- The change of a counter by minus one.
abbrev pub minus_one : Bytes
minus_one = put_rocksdb_uint64 (neg_int64 1)

pub count_down :
    {E : Engine} (db : RockDb E) (table : Bytes) (old : Option Bytes)
    → db.enable_table_counter ≡ true
    → after_all E.merged
        (incr_table_key_count db table (neg_int64 1))
        (encode_table_meta_key table)
        old
      ≡ E.merged minus_one old
unfolding after_all after incr_table_key_count
count_down db table old counts = rw (counts, eq_bytes_refl (encode_table_meta_key table)) refl
