-- ===== src/Key/Table.antt =====
-- The table of a redis key, and the name checks.
use zan_redis_db.Prelude.{◌≡◌, ◌≢◌, refl, sym, ap, ◌∙◌, arith, [], ◌∷◌, All, ◌↔◌}
use zan_redis_db.Result.{ok}
use zan_redis_db.Bytes.{Bytes}
use zan_redis_db.Key.{extract_table_from_redis_key, pack_redis_key, table_start_sep}

-- A name with no separator in it.
abbrev pub HasNoSep : Bytes → Type 0
HasNoSep = All (λ c. c ≢ table_start_sep)

split :
    (key table rest : Bytes)
    → extract_table_from_redis_key key ≡ ok (table, rest)
    → HasNoSep table × (pack_redis_key table rest ≡ key)
unfolding extract_table_from_redis_key pack_redis_key
split [] table rest e = cc
split (c ∷ key) [] rest e = ground (arith, split key [] rest)
split (c ∷ key) (t ∷ table) rest e = ground (arith, split key table rest)

joined :
    (table rest : Bytes)
    → HasNoSep table
    → extract_table_from_redis_key (pack_redis_key table rest) ≡ ok (table, rest)
unfolding extract_table_from_redis_key pack_redis_key
joined [] rest h = refl
joined (t ∷ table) rest h = ground (arith, joined table rest)

-- packRedisKey and extractTableFromRedisKey are inverse to one another: a key is split into a
-- table and a rest exactly if the table has no separator and the two pack to the key.
pub extract_table_iff :
    (key table rest : Bytes)
    → (extract_table_from_redis_key key ≡ ok (table, rest))
      ↔ (HasNoSep table × (pack_redis_key table rest ≡ key))
extract_table_iff key table rest =
    (split key table rest, λ h. ap extract_table_from_redis_key (sym h.1) ∙ joined table rest h.0)
