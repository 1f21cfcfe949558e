-- ===== src/Sets/Examples.antt =====
-- The theorems about sets on a store that begins empty.
use zan_redis_db.Prelude.{
  ◌≡◌, refl, arith, Bool, true, false, none, some, Option, ap, ◌∙◌, [], ◌∷◌, ◌++◌, length, ◌||◌,
  if◌then◌else◌,
}
use zan_redis_db.Result.{ok}
use zan_redis_db.Bytes.{Bytes, eq_bytes, contains}
use zan_redis_db.Bytes.Members.{distinct}
use zan_redis_db.Key.{
  extract_table_from_redis_key, check_key_size, check_coll_kf_size, s_encode_size_key,
  encode_data_table_prefix,
}
use zan_redis_db.Key.Elements.{s_encode_set_key}
use zan_redis_db.Key.Kinds.{member_key-eq, size_key-member_key}
use zan_redis_db.Expire.{HeaderMetaValue, header_is_expired, encode_ver_key}
use zan_redis_db.Engine.{RockDb}
use zan_redis_db.Engine.Table.{table_engine}
use zan_redis_db.Lists.Model.{IsKey}
use zan_redis_db.Sets.{is_there, s_card, s_is_member, check_sub_key}
use zan_redis_db.Sets.Write.{s_add, s_rem}
use zan_redis_db.Sets.Model.{IsMemberSet, set_raw}
use zan_redis_db.Sets.Written.{IsGone, Holds}
use zan_redis_db.Sets.Effect.{Fit}
use zan_redis_db.Sets.Add.{new_of, s_add_live, s_add_twice}
use zan_redis_db.Sets.Create.{s_add_new}
use zan_redis_db.Sets.Remove.{gone_of, rest_of, s_rem_live, s_rem_expired}

abbrev t_name : Bytes
t_name = b't' ∷ []

abbrev a_name : Bytes
a_name = b'k' ∷ []

abbrev a_key : Bytes
a_key = b't' ∷ b':' ∷ b'k' ∷ []

abbrev ann : Bytes
ann = b'a' ∷ []

abbrev bob : Bytes
bob = b'b' ∷ []

abbrev cid : Bytes
cid = b'c' ∷ []

abbrev empty_db : RockDb table_engine
empty_db = record {
  eng = record { held = λ k. none; written = [] };
  wb = [];
  is_batching = false;
  enable_table_counter = true;
  estimate_table_counter = false;
}

abbrev at_five : HeaderMetaValue
at_five = record { ver = 1; expire_at = 0; value_version = 5; user_data = none }

a_key-IsKey : IsKey a_key t_name a_name
unfolding extract_table_from_redis_key check_key_size
a_key-IsKey = record { named = refl; table_given = refl; key_fits = refl; rk_fits = refl }

empty_db-IsGone : IsGone empty_db a_key t_name a_name at_five
empty_db-IsGone = record { no_meta = refl; no_members = λ m. refl; no_batch = refl }

ann_fits : check_coll_kf_size a_key ann ≡ ok tt
unfolding check_coll_kf_size
ann_fits = refl

bob_fits : check_coll_kf_size a_key bob ≡ ok tt
unfolding check_coll_kf_size
bob_fits = refl

cid_fits : check_coll_kf_size a_key cid ≡ ok tt
unfolding check_coll_kf_size
cid_fits = refl

two-Fit : Fit a_key (ann ∷ bob ∷ [])
two-Fit = (ann_fits, (bob_fits, tt))

abbrev two_db : RockDb table_engine
two_db = (s_add empty_db 5 a_key (ann ∷ bob ∷ [])).1

s_add_new_example :
    ((s_add empty_db 5 a_key (ann ∷ bob ∷ [])).0 ≡ ok 2)
    × Holds two_db 5 a_key t_name a_name at_five (ann ∷ bob ∷ [])
s_add_new_example =
    s_add_new empty_db 5 a_key t_name a_name a_key-IsKey (omega arith) empty_db-IsGone
      (ann ∷ bob ∷ []) (omega arith) two-Fit

two_db-IsMemberSet : IsMemberSet two_db 5 a_key t_name a_name at_five (ann ∷ bob ∷ [])
two_db-IsMemberSet =
    (s_add_new empty_db 5 a_key t_name a_name a_key-IsKey (omega arith) empty_db-IsGone
      (ann ∷ bob ∷ []) (omega arith) two-Fit).1

distinct-two : distinct (ann ∷ bob ∷ []) ≡ true
unfolding distinct contains eq_bytes
distinct-two = refl

distinct-pair : distinct (cid ∷ bob ∷ []) ≡ true
unfolding distinct contains eq_bytes
distinct-pair = refl

cid_absent : contains (ann ∷ bob ∷ []) cid ≡ false
unfolding contains eq_bytes
cid_absent = refl

s_add_live_example :
    ((s_add two_db 5 a_key (cid ∷ bob ∷ [])).0
      ≡ ok (length (new_of (ann ∷ bob ∷ []) (cid ∷ bob ∷ []))))
    × Holds
        ((s_add two_db 5 a_key (cid ∷ bob ∷ [])).1)
        5
        a_key
        t_name
        a_name
        at_five
        (new_of (ann ∷ bob ∷ []) (cid ∷ bob ∷ []) ++ (ann ∷ bob ∷ []))
    × (distinct (new_of (ann ∷ bob ∷ []) (cid ∷ bob ∷ []) ++ (ann ∷ bob ∷ [])) ≡ true)
s_add_live_example =
    s_add_live two_db 5 a_key t_name a_name a_key-IsKey at_five (ann ∷ bob ∷ []) two_db-IsMemberSet
      distinct-two (cid ∷ bob ∷ []) (omega arith) (cid_fits, (bob_fits, tt)) distinct-pair
      (omega arith)

s_add_twice_example :
    ((s_add two_db 5 a_key (cid ∷ cid ∷ [])).0 ≡ ok 2)
    × (s_card ((s_add two_db 5 a_key (cid ∷ cid ∷ [])).1) 5 a_key ≡ ok 4)
    × ((x : Bytes)
        → check_sub_key x ≡ ok tt
        → s_is_member ((s_add two_db 5 a_key (cid ∷ cid ∷ [])).1) 5 a_key x
          ≡ ok (if eq_bytes cid x || contains (ann ∷ bob ∷ []) x then 1 else 0))
s_add_twice_example =
    s_add_twice two_db 5 a_key t_name a_name a_key-IsKey at_five (ann ∷ bob ∷ []) two_db-IsMemberSet
      cid cid_fits cid_absent (omega arith)

s_rem_live_example :
    ((s_rem two_db 5 a_key (cid ∷ bob ∷ [])).0
      ≡ ok (length (gone_of (ann ∷ bob ∷ []) (cid ∷ bob ∷ []))))
    × Holds
        ((s_rem two_db 5 a_key (cid ∷ bob ∷ [])).1)
        5
        a_key
        t_name
        a_name
        at_five
        (rest_of (ann ∷ bob ∷ []) (cid ∷ bob ∷ []))
    × (distinct (rest_of (ann ∷ bob ∷ []) (cid ∷ bob ∷ [])) ≡ true)
s_rem_live_example =
    s_rem_live two_db 5 a_key t_name a_name a_key-IsKey at_five (ann ∷ bob ∷ []) two_db-IsMemberSet
      distinct-two cid (bob ∷ []) (cid_fits, (bob_fits, tt)) distinct-pair

-- A set with one member, which expires after 100 seconds.
abbrev short_header : HeaderMetaValue
short_header = record { ver = 1; expire_at = 100; value_version = 3; user_data = none }

abbrev member_key : Bytes → Bytes
member_key m = s_encode_set_key t_name (encode_ver_key short_header a_name) m

abbrev short_db : RockDb table_engine
short_db = record empty_db {
  eng = record {
    held = λ k.
        if eq_bytes (member_key ann) k
        then some []
        else if eq_bytes (s_encode_size_key a_key) k
        then some (set_raw short_header 1 3)
        else none;
    written = [];
  };
}

abbrev none_else : Bytes → Option Bytes
none_else m =
    if eq_bytes (s_encode_size_key a_key) (member_key m)
    then some (set_raw short_header 1 3)
    else none

there_if : (b : Bool) (v : Bytes) → is_there (if b then some v else none) ≡ (b || false)
there_if true v = refl
there_if false v = refl

short_members :
    (m : Bytes) → is_there (table_engine.get short_db.eng (member_key m)) ≡ contains (ann ∷ []) m
unfolding contains
short_members m =
    ap (λ (b : Bool). is_there (if b then some [] else none_else m))
      (member_key-eq t_name (encode_ver_key short_header a_name) ann m)
    ∙ ap
        (λ (b : Bool).
          is_there (
            if eq_bytes ann m
            then some []
            else if b
            then some (set_raw short_header 1 3)
            else none))
        ((size_key-member_key a_key t_name (encode_ver_key short_header a_name) m).0)
    ∙ there_if (eq_bytes ann m) []

alive : header_is_expired short_header 5 ≡ false
unfolding header_is_expired
alive = refl

short_db-IsMemberSet : IsMemberSet short_db 5 a_key t_name a_name short_header (ann ∷ [])
unfolding eq_bytes s_encode_set_key s_encode_size_key encode_data_table_prefix
short_db-IsMemberSet = record {
  set_ts = 3;
  stored = refl;
  header = record { version_one = refl; expire_fits = omega arith; version_fits = omega arith };
  alive = alive;
  nonempty = omega arith;
  small = omega arith;
  members = short_members;
  no_batch = refl;
}

dead : header_is_expired short_header 200000000000 ≡ true
unfolding header_is_expired
dead = refl

distinct-ann : distinct (ann ∷ []) ≡ true
unfolding distinct contains
distinct-ann = refl

s_rem_expired_example :
    (s_card short_db 200000000000 a_key ≡ ok 0)
    × (s_is_member short_db 200000000000 a_key ann ≡ ok 0)
    × ((s_rem short_db 200000000000 a_key (ann ∷ [])).0
        ≡ ok (length (gone_of (ann ∷ []) (ann ∷ []))))
s_rem_expired_example =
    s_rem_expired short_db 5 a_key t_name a_name a_key-IsKey short_header (ann ∷ [])
      short_db-IsMemberSet distinct-ann 200000000000 dead ann [] (ann_fits, tt) distinct-ann
