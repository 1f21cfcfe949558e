-- ===== src/Sets/Remove.antt =====
-- SREM from a set.
use zan_redis_db.Prelude.{
  ℕ, ◌+◌, ◌≡◌, refl, sym, ap, ◌∙◌, arith, Bool, true, false, not, ◌&&◌, some, List, ◌∷◌, length,
  ◌==◌,
}
use zan_redis_db.Result.{Result, ok}
use zan_redis_db.Bytes.{Bytes, contains, lt_int64, add_int64, neg_int64}
use zan_redis_db.Bytes.Members.{
  select, distinct, contains-select, distinct-select, count-not, count_both,
}
use zan_redis_db.Key.Elements.{s_encode_set_key}
use zan_redis_db.Expire.{HeaderMetaValue, header_is_expired, encode_ver_key}
use zan_redis_db.Engine.{Engine, RockDb, or_return, clear_batch}
use zan_redis_db.Collection.{CollVerKeyInfo, is_not_exist_or_expired}
use zan_redis_db.Lists.Model.{IsKey}
use zan_redis_db.Sets.{has_member, s_get_size, s_card, s_is_member}
use zan_redis_db.Sets.Write.{rem_members, rem_end, s_rem}
use zan_redis_db.Sets.Model.{
  IsMemberSet, info_of, size_bytes, size_of-size_bytes, coll_header_meta_at,
  get_coll_version_key_at,
}
use zan_redis_db.Sets.Effect.{Fit, deletes, rem_members-ok, deletes-member, s_incr_size-ok}
use zan_redis_db.Sets.Written.{Holds, written, written-Holds}

-- The members that are taken out, and those that stay.
abbrev pub gone_of : List Bytes → List Bytes → List Bytes
gone_of xs args = select (contains xs) args

abbrev pub rest_of : List Bytes → List Bytes → List Bytes
rest_of xs args = select (λ m. not (contains args m)) xs

rest-gone : (a x : Bool) → (not (a && x) && x) ≡ (x && not a)
rest-gone true true = refl
rest-gone true false = refl
rest-gone false true = refl
rest-gone false false = refl

pub length-gone_of :
    (xs args : List Bytes)
    → distinct xs ≡ true
    → distinct args ≡ true
    → length (gone_of xs args) + length (rest_of xs args) ≡ length xs
length-gone_of xs args d apart =
    omega (arith, count_both xs args d apart, count-not (contains args) xs)

module _ {E : Engine} (db : RockDb E) (ts : ℕ) (key table rk : Bytes) (k : IsKey key table rk)
    (h : HeaderMetaValue) (xs : List Bytes) (s : IsMemberSet db ts key table rk h xs)
    (d : distinct xs ≡ true) (args : List Bytes) (fit : Fit key args)
    (apart : distinct args ≡ true) where
  abbrev counted : Bool
  counted = lt_int64 0 (length (gone_of xs args)) && (length (rest_of xs args) == 0)

  abbrev info_at : ℕ → CollVerKeyInfo
  info_at now = record (info_of table rk h (length xs) s.set_ts) {
    expired = header_is_expired h now;
  }

  abbrev after_rem : ℕ → RockDb E
  after_rem now =
      written db now key (info_at now) rk h refl (rest_of xs args)
        (deletes (info_at now) (gone_of xs args)) (neg_int64 1) counted s.no_batch

  rem_found :
      (now : ℕ)
      → or_return
          (rem_members db (info_at now) key args)
          (clear_batch db)
          (rem_end db now key (info_at now))
        ≡ (ok (length (gone_of xs args)), after_rem now)
  unfolding or_return rem_end has_member
  rem_found now =
      let sum : add_int64 (length xs) (neg_int64 (length (gone_of xs args)))
          ≡ length (rest_of xs args) =
        omega (arith, s.small, length-gone_of xs args d apart) in
      rw
        (
          rem_members-ok db (info_at now) key xs s.members args fit,
          s_incr_size-ok now key h (some (size_bytes (length xs) s.set_ts)) (length xs)
              (neg_int64 (length (gone_of xs args))) (length (rest_of xs args)) s.header
              (size_of-size_bytes (length xs) s.set_ts (omega (arith, s.small))) sum
              (omega (arith, s.small, length-gone_of xs args d apart)),
        )
        refl

  after_rem-Holds : Holds (after_rem ts) ts key table rk h (rest_of xs args)
  after_rem-Holds =
      written-Holds db ts key (info_at ts) rk h refl (rest_of xs args)
        (deletes (info_at ts) (gone_of xs args)) (neg_int64 1) counted s.no_batch s.header s.alive
        (omega (arith, s.small, length-gone_of xs args d apart))
        (λ m.
          deletes-member E.merged (info_at ts) (gone_of xs args) m
            (E.get db.eng (s_encode_set_key table (encode_ver_key h rk) m))
          ∙ ap (λ (b : Bool). not (contains (gone_of xs args) m) && b) (s.members m)
          ∙ ap (λ (b : Bool). not b && contains xs m) (contains-select (contains xs) args m)
          ∙ rest-gone (contains args m) (contains xs m)
          ∙ sym (contains-select (λ x. not (contains args x)) xs m))

module _ {E : Engine} (db : RockDb E) (ts : ℕ) (key table rk : Bytes) (k : IsKey key table rk)
    (h : HeaderMetaValue) (xs : List Bytes) (s : IsMemberSet db ts key table rk h xs)
    (d : distinct xs ≡ true) where
  -- SREM of one or more different members of allowed sizes, at any time, from a key of an allowed
  -- size that holds a set without a member twice.
  s_rem_at :
      (now : ℕ) (m : Bytes) (ms : List Bytes) (fit : Fit key (m ∷ ms))
      (apart : distinct (m ∷ ms) ≡ true)
      → s_rem db now key (m ∷ ms) ≡ (
        ok (length (gone_of xs (m ∷ ms))),
        after_rem db ts key table rk k h xs s d (m ∷ ms) fit apart now,
      )
  unfolding s_rem or_return
  s_rem_at now m ms fit apart =
      rw (get_coll_version_key_at db ts key table rk h xs k s now)
        (rem_found db ts key table rk k h xs s d (m ∷ ms) fit apart now)

  -- SREM of different members of allowed sizes from a key of an allowed size that holds a live set,
  -- without a member twice, gives the number of those that were members, and takes them out: the
  -- others stay, and where none stays the key holds nothing.
  pub s_rem_live :
      (m : Bytes) (ms : List Bytes)
      → Fit key (m ∷ ms)
      → distinct (m ∷ ms) ≡ true
      → ((s_rem db ts key (m ∷ ms)).0 ≡ ok (length (gone_of xs (m ∷ ms))))
        × Holds ((s_rem db ts key (m ∷ ms)).1) ts key table rk h (rest_of xs (m ∷ ms))
        × (distinct (rest_of xs (m ∷ ms)) ≡ true)
  s_rem_live m ms fit apart = rw (s_rem_at ts m ms fit apart) (
    refl,
    after_rem-Holds db ts key table rk k h xs s d (m ∷ ms) fit apart,
    distinct-select (λ x. not (contains (m ∷ ms) x)) xs d,
  )

  -- SREM does not look at the expiry: at a time when the set of a key has expired, so that SCARD and
  -- SISMEMBER give zero, it still gives the number of the old members among its arguments, which
  -- are different and have allowed sizes. The set has no member twice.
  pub s_rem_expired :
      (now : ℕ)
      → header_is_expired h now ≡ true
      → (m : Bytes) (ms : List Bytes) → Fit key (m ∷ ms)
      → distinct (m ∷ ms) ≡ true
      → (s_card db now key ≡ ok 0)
        × (s_is_member db now key m ≡ ok 0)
        × ((s_rem db now key (m ∷ ms)).0 ≡ ok (length (gone_of xs (m ∷ ms))))
  unfolding s_card s_get_size s_is_member is_not_exist_or_expired
  s_rem_expired now dead m ms fit apart = (
    rw (k.key_fits, coll_header_meta_at db ts key table rk h xs k s now, dead) refl,
    rw (get_coll_version_key_at db ts key table rk h xs k s now, dead) refl,
    ap (λ (p : Result ℕ × RockDb E). p.0) (s_rem_at now m ms fit apart),
  )
