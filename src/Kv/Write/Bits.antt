-- ===== src/Kv/Write/Bits.antt =====
-- SETBIT of the old bitmap format, on a key that holds nothing.
use zan_redis_db.Prelude.{
  ℕ, ◌+◌, ◌/◌, ◌≤◌, ◌≡◌, refl, arith, true, false, none, [], ◌∷◌, ◌++◌, ltb, lt→ltb,
}
use zan_redis_db.Result.{ok}
use zan_redis_db.Bytes.{Bytes, lt_int64}
use zan_redis_db.Key.{encode_table_meta_key}
use zan_redis_db.Engine.{Engine, RockDb, merge, add_ops, or_return}
use zan_redis_db.Collection.{incr_table_key_count, put_rocksdb_uint64}
use zan_redis_db.Kv.{convert_redis_key_to_db_kv_key}
use zan_redis_db.Kv.Model.{prepare-missing}
use zan_redis_db.Kv.Write.{bit_set_old, bit_set_value, count_created, max_bit_offset}

left_alone :
    {E : Engine} (db : RockDb E) (ts : ℕ) (key table kk : Bytes) (offset : ℕ)
    → convert_redis_key_to_db_kv_key key ≡ ok (table, kk)
    → E.get db.eng kk ≡ none
    → offset ≤ max_bit_offset
    → bit_set_old db ts key offset 0 ≡ (ok 0, add_ops db (incr_table_key_count db table 1))
unfolding bit_set_old bit_set_value count_created or_return
left_alone db ts key table kk offset named missing room =
    let high : lt_int64 max_bit_offset offset ≡ false = ground arith in
    let low : lt_int64 offset 0 ≡ false = ground arith in
    let short : ltb 0 (offset / 8 + 1) ≡ true = lt→ltb 0 (offset / 8 + 1) (omega arith) in
    rw (high, low, prepare-missing db ts key table kk named missing, short) refl

-- SETBIT of a zero bit at an allowed offset of a missing key, where the tables are counted, answers 0
-- and writes nothing, but leaves in the shared batch that the table has one key more, for the next
-- command to write.
pub bit_set_old-leaves_count :
    {E : Engine} (db : RockDb E) (ts : ℕ) (key table kk : Bytes) (offset : ℕ)
    → convert_redis_key_to_db_kv_key key ≡ ok (table, kk)
    → E.get db.eng kk ≡ none
    → offset ≤ max_bit_offset
    → db.enable_table_counter ≡ true
    → ((bit_set_old db ts key offset 0).0 ≡ ok 0)
      × ((bit_set_old db ts key offset 0).1.eng ≡ db.eng)
      × ((bit_set_old db ts key offset 0).1.wb
          ≡ db.wb ++ merge (encode_table_meta_key table) (put_rocksdb_uint64 1) ∷ [])
unfolding incr_table_key_count add_ops
bit_set_old-leaves_count db ts key table kk offset named missing room counts =
    rw (left_alone db ts key table kk offset named missing room, counts) (refl, refl, refl)
