-- ===== src/Lists/Examples.antt =====
-- The theorems about lists on a store that begins empty.
use zan_redis_db.Prelude.{◌+◌, ◌-◌, ◌^◌, ◌≡◌, refl, arith, true, false, Option, none, some, [], ◌∷◌}
use zan_redis_db.Result.{ok}
use zan_redis_db.Bytes.{Bytes}
use zan_redis_db.Key.{extract_table_from_redis_key, check_key_size, encode_table_meta_key}
use zan_redis_db.Engine.{RockDb}
use zan_redis_db.Engine.Table.{table_engine, added}
use zan_redis_db.Lists.{head_end, tail_end, list_initial_seq, l_index}
use zan_redis_db.Lists.Model.{IsKey, IsList}
use zan_redis_db.Lists.Places.{replace_at}
use zan_redis_db.Lists.Read.{at_index, l_index-IsList}
use zan_redis_db.Lists.Effect.{Holds, IsGone}
use zan_redis_db.Lists.Write.{lpush, lpop}
use zan_redis_db.Lists.Write.Pop.{lpop_head}
use zan_redis_db.Lists.Write.Create.{lpush_tail_new, fresh_header}
use zan_redis_db.Lists.Trim.Set.{l_set_inside}
use zan_redis_db.Lists.Trim.{l_set, ltrim2}
use zan_redis_db.Collection.Counter.{minus_one}
use zan_redis_db.Lists.Trim.Counter.{ltrim2_counts_twice}

abbrev t_name : Bytes
t_name = b't' ∷ []

abbrev k_name : Bytes
k_name = b'k' ∷ []

abbrev list_key : Bytes
list_key = b't' ∷ b':' ∷ b'k' ∷ []

abbrev a_value : Bytes
a_value = b'a' ∷ []

abbrev b_value : Bytes
b_value = b'b' ∷ []

abbrev empty_db : RockDb table_engine
empty_db = record {
  eng = record { held = λ k. none; written = [] };
  wb = [];
  is_batching = false;
  enable_table_counter = true;
  estimate_table_counter = false;
}

list_key-IsKey : IsKey list_key t_name k_name
unfolding extract_table_from_redis_key check_key_size
list_key-IsKey = record { named = refl; table_given = refl; key_fits = refl; rk_fits = refl }

empty_db-IsGone : IsGone empty_db list_key t_name k_name (fresh_header 5)
empty_db-IsGone = record { no_meta = refl; no_elements = λ s w. refl; no_batch = refl }

-- A store with the list of two values.
abbrev two_db : RockDb table_engine
two_db = (lpush empty_db 5 list_key tail_end (a_value ∷ b_value ∷ [])).1

two_db-IsList :
    IsList two_db 5 list_key t_name k_name
      (fresh_header 5)
      list_initial_seq
      (a_value ∷ b_value ∷ [])
two_db-IsList =
    (lpush_tail_new empty_db 5 list_key t_name k_name list_key-IsKey (omega arith) empty_db-IsGone
      a_value (b_value ∷ []) (omega arith)).1

lpop_head_example :
    ((lpop two_db 5 list_key head_end).0 ≡ ok (some a_value))
    × Holds
        ((lpop two_db 5 list_key head_end).1)
        5
        list_key
        t_name
        k_name
        (fresh_header 5)
        (list_initial_seq + 1)
        (b_value ∷ [])
lpop_head_example =
    lpop_head two_db 5 list_key t_name k_name (fresh_header 5) list_initial_seq a_value
      (b_value ∷ []) list_key-IsKey (omega arith) two_db-IsList

-- Index -1 is the last value.
l_index-IsList_example : l_index two_db 5 list_key (2 ^ 64 - 1) ≡ ok (some b_value)
unfolding at_index
l_index-IsList_example =
    l_index-IsList two_db 5 list_key t_name k_name (fresh_header 5) list_initial_seq
      (a_value ∷ b_value ∷ []) list_key-IsKey two_db-IsList (2 ^ 64 - 1) (omega arith)

-- The same store with its table counters on.
abbrev counted_db : RockDb table_engine
counted_db = record two_db { enable_table_counter = true }

counted_db-IsList :
    IsList counted_db 5 list_key t_name k_name
      (fresh_header 5)
      list_initial_seq
      (a_value ∷ b_value ∷ [])
counted_db-IsList = record {
  list_ts = two_db-IsList.list_ts;
  raw = two_db-IsList.raw;
  encoded = two_db-IsList.encoded;
  stored = two_db-IsList.stored;
  header = two_db-IsList.header;
  alive = two_db-IsList.alive;
  ts_fits = two_db-IsList.ts_fits;
  nonempty = two_db-IsList.nonempty;
  low = two_db-IsList.low;
  high = two_db-IsList.high;
  elements = two_db-IsList.elements;
  no_batch = two_db-IsList.no_batch;
}

abbrev counter : RockDb table_engine → Option Bytes
counter db = db.eng.held (encode_table_meta_key t_name)

ltrim2_counts_twice_example :
    counter ((ltrim2 counted_db 5 list_key 2 3).1)
    ≡ added minus_one (added minus_one (counter counted_db))
ltrim2_counts_twice_example =
    ltrim2_counts_twice counted_db 5 list_key t_name k_name (fresh_header 5) list_initial_seq
      (a_value ∷ b_value ∷ []) list_key-IsKey counted_db-IsList refl 2 3 (omega arith) (omega arith)

-- The last value, from the back.
l_set_inside_example :
    ((l_set two_db 5 list_key (2 ^ 64 - 1) a_value).0 ≡ ok tt)
    × Holds
        ((l_set two_db 5 list_key (2 ^ 64 - 1) a_value).1)
        5
        list_key
        t_name
        k_name
        (fresh_header 5)
        list_initial_seq
        (a_value ∷ a_value ∷ [])
unfolding replace_at
l_set_inside_example =
    l_set_inside two_db 5 list_key t_name k_name (fresh_header 5) list_initial_seq
      (a_value ∷ b_value ∷ []) list_key-IsKey (omega arith) two_db-IsList a_value (2 ^ 64 - 1)
      (omega arith) 1 refl
