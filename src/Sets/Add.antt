-- ===== src/Sets/Add.antt =====
-- SADD to a set.
use mathlib.Core.Path.{subst}
use zan_redis_db.Prelude.{
  ℕ, ◌+◌, ◌^◌, ◌≤◌, ◌<◌, ◌≡◌, refl, sym, ap, ◌∙◌, arith, Bool, true, false, not, ◌&&◌, ◌||◌, Option,
  some, List, [], ◌∷◌, ◌++◌, length, ◌==◌, if◌then◌else◌, length-append, le→ltb,
}
use zan_redis_db.Result.{ok}
use zan_redis_db.Bytes.{Bytes, contains, eq_bytes, lt_int64, add_int64}
use zan_redis_db.Bytes.Members.{
  select, distinct, contains-append, contains-select, distinct-select, distinct-append, count-not,
}
use zan_redis_db.Key.{set_type, check_coll_kf_size}
use zan_redis_db.Key.Elements.{s_encode_set_key}
use zan_redis_db.Expire.{
  HeaderMetaValue, header_is_expired, encode_ver_key, encode_to_version_key, is_versioned_type,
}
use zan_redis_db.Expire.Header.{IsHeader}
use zan_redis_db.Engine.{Engine, RockDb, or_return, clear_batch}
use zan_redis_db.Collection.{CollVerKeyInfo, prepare_coll_key_for_write}
use zan_redis_db.Lists.{max_batch_num}
use zan_redis_db.Lists.Model.{IsKey}
use zan_redis_db.Lists.Write.Pushed.{check_coll_kf_size-nil}
use zan_redis_db.Sets.{size_of, has_member, s_card, s_is_member, check_sub_key}
use zan_redis_db.Sets.Write.{add_members, add_end, s_add}
use zan_redis_db.Sets.Model.{
  size_bytes, IsMemberSet, info_of, size_of-size_bytes, coll_header_meta-IsMemberSet,
  s_reads-IsMemberSet,
}
use zan_redis_db.Sets.Effect.{Fit, puts, add_members-ok, puts-member, s_incr_size-ok}
use zan_redis_db.Sets.Written.{Holds, written, written-Holds}

or_twice : (b c : Bool) → (b || (b || c)) ≡ (b || c)
or_twice true c = refl
or_twice false c = refl

-- The members that are new.
abbrev pub new_of : List Bytes → List Bytes → List Bytes
new_of xs args = select (λ m. not (contains xs m)) args

pub distinct-new_of :
    (xs args : List Bytes)
    → distinct xs ≡ true
    → distinct args ≡ true
    → distinct (new_of xs args ++ xs) ≡ true
distinct-new_of xs args d apart =
    distinct-append (new_of xs args) xs (distinct-select (λ x. not (contains xs x)) args apart) d
      (λ m there. ground (arith, there, contains-select (λ x. not (contains xs x)) args m))

-- A set that is found, or is made, under a header.
module _ {E : Engine} (db : RockDb E) (ts : ℕ) (key table rk : Bytes) (h : HeaderMetaValue)
    (user : Option Bytes) (dead : Bool) (xs : List Bytes) (empty : db.wb ≡ [])
    (size : size_of user ≡ ok (length xs)) (v : IsHeader h)
    (alive : header_is_expired h ts ≡ false) where
  abbrev info : CollVerKeyInfo
  info = record {
    old_header = record h { user_data = user };
    expired = dead;
    table = table;
    ver_key = encode_ver_key h rk;
  }

  module _ (has : (m : Bytes) → has_member db info m ≡ contains xs m) (args : List Bytes)
      (fit : Fit key args) (room : length xs + length args < 2 ^ 62) where
    abbrev new : List Bytes
    new = new_of xs args

    abbrev counted : Bool
    counted = lt_int64 0 (length (new ++ xs)) && (length (new ++ xs) == length new) && not dead

    abbrev pub after_add : RockDb E
    after_add = written db ts key info rk h refl (new ++ xs) (puts info new) 1 counted empty

    length-new : length (new ++ xs) < 2 ^ 62
    length-new = omega (arith, room, length-append new xs, count-not (contains xs) args)

    pub add_found :
        or_return (add_members db info key args) (clear_batch db) (add_end db ts key info)
        ≡ (ok (length new), after_add)
    unfolding or_return add_end
    add_found =
        let sum : add_int64 (length xs) (length new) ≡ length (new ++ xs) =
          omega (arith, length-new, length-append new xs) in
        rw
          (
            add_members-ok db info key xs has args fit,
            s_incr_size-ok ts key h user (length xs) (length new) (length (new ++ xs)) v size sum
                length-new,
          )
          refl

    pub after_add-Holds : Holds after_add ts key table rk h (new ++ xs)
    unfolding has_member
    after_add-Holds =
        written-Holds db ts key info rk h refl (new ++ xs) (puts info new) 1 counted empty v alive
          length-new
          (λ m.
            puts-member E.merged info new m
              (E.get db.eng (s_encode_set_key table (encode_ver_key h rk) m))
            ∙ ap (λ (b : Bool). contains new m || b) (has m)
            ∙ sym (contains-append new xs m))

module _ {E : Engine} (db : RockDb E) (ts : ℕ) (key table rk : Bytes) (k : IsKey key table rk) where
  module _ (h : HeaderMetaValue) (xs : List Bytes) (s : IsMemberSet db ts key table rk h xs) where
    prepare-IsMemberSet :
        prepare_coll_key_for_write db ts set_type key []
        ≡ ok (info_of table rk h (length xs) s.set_ts)
    unfolding prepare_coll_key_for_write encode_to_version_key is_versioned_type encode_ver_key
    prepare-IsMemberSet =
        rw
          (
            k.named,
            check_coll_kf_size-nil rk k.rk_fits,
            coll_header_meta-IsMemberSet db ts key table rk h xs k s,
          )
          refl

    s_add-added :
        (args : List Bytes)
        → length args ≤ max_batch_num
        → Fit key args
        → length xs + length args < 2 ^ 62
        → ((s_add db ts key args).0 ≡ ok (length (new_of xs args)))
          × Holds ((s_add db ts key args).1) ts key table rk h (new_of xs args ++ xs)
    unfolding s_add or_return has_member
    s_add-added args few fit room =
        let sized : size_of (some (size_bytes (length xs) s.set_ts)) ≡ ok (length xs) =
          size_of-size_bytes (length xs) s.set_ts (omega (arith, s.small)) in
        rw
          (
            le→ltb max_batch_num (length args) few,
            prepare-IsMemberSet,
            add_found db ts key table rk h (some (size_bytes (length xs) s.set_ts)) false xs
                s.no_batch sized s.header s.alive s.members args fit room,
          )
          (
            refl,
            after_add-Holds db ts key table rk h (some (size_bytes (length xs) s.set_ts)) false xs
                s.no_batch sized s.header s.alive s.members args fit room,
          )

    -- SADD of at most 5000 different members of allowed sizes to a key of an allowed size that holds
    -- a live set, without a member twice, gives the number of those that were no members, and adds
    -- them to the set, which then has no member twice either. Together they are fewer than 2^62.
    pub s_add_live :
        distinct xs ≡ true
        → (args : List Bytes) → length args ≤ max_batch_num
        → Fit key args
        → distinct args ≡ true
        → length xs + length args < 2 ^ 62
        → ((s_add db ts key args).0 ≡ ok (length (new_of xs args)))
          × Holds ((s_add db ts key args).1) ts key table rk h (new_of xs args ++ xs)
          × (distinct (new_of xs args ++ xs) ≡ true)
    s_add_live d args few fit apart room =
        let (answer, held) = s_add-added args few fit room in
        (answer, held, distinct-new_of xs args d apart)

    -- SADD of a text of an allowed size twice, to a key of an allowed size that holds a live set
    -- without it, answers two, and SCARD then gives two members more, though SISMEMBER tells that
    -- only this one is added. They stay fewer than 2^62.
    pub s_add_twice :
        (m : Bytes)
        → check_coll_kf_size key m ≡ ok tt
        → contains xs m ≡ false
        → length xs + 2 < 2 ^ 62
        → ((s_add db ts key (m ∷ m ∷ [])).0 ≡ ok 2)
          × (s_card ((s_add db ts key (m ∷ m ∷ [])).1) ts key ≡ ok (length xs + 2))
          × ((x : Bytes)
              → check_sub_key x ≡ ok tt
              → s_is_member ((s_add db ts key (m ∷ m ∷ [])).1) ts key x
                ≡ ok (if eq_bytes m x || contains xs x then 1 else 0))
    unfolding select contains
    s_add_twice m fits absent room =
        let twice : List Bytes = m ∷ m ∷ [] in
        let db' : RockDb E = (s_add db ts key twice).1 in
        let new : new_of xs twice ≡ twice = rw absent refl in
        let (answer, held) =
          s_add-added twice (omega arith) (fits, (fits, tt)) (omega (arith, room)) in
        let (size, members) =
          s_reads-IsMemberSet db' ts key table rk h (twice ++ xs) k
            (subst (λ n. Holds db' ts key table rk h (n ++ xs)) new held) in
        (
          answer ∙ ap (λ (n : List Bytes). ok (length n)) new,
          size ∙ ap ok (omega arith),
          λ x small.
              members x small
              ∙ ap (λ (b : Bool). ok (if b then 1 else 0))
                  (or_twice (eq_bytes m x) (contains xs x)),
        )
