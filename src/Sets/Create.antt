-- ===== src/Sets/Create.antt =====
-- SADD to a key that holds nothing makes a set.
use mathlib.Core.Path.{subst}
use zan_redis_db.Prelude.{
  ℕ, ◌≤◌, ◌≡◌, refl, ap, ◌∙◌, arith, false, none, List, [], ◌∷◌, ◌++◌, append-nil, length, le→ltb,
}
use zan_redis_db.Result.{ok}
use zan_redis_db.Bytes.{Bytes, IsWord64, contains}
use zan_redis_db.Bytes.Members.{select}
use zan_redis_db.Key.{set_type}
use zan_redis_db.Expire.{
  HeaderMetaValue, header_is_expired, new_header_meta_v1, renew_on_expired, decode_raw_value,
  raw_is_expired, encode_ver_key, encode_to_version_key, is_versioned_type,
}
use zan_redis_db.Expire.Header.{IsHeader}
use zan_redis_db.Engine.{Engine, RockDb, or_return}
use zan_redis_db.Collection.{prepare_coll_key_for_write, coll_header_meta, encode_meta_key}
use zan_redis_db.Lists.{max_batch_num}
use zan_redis_db.Lists.Model.{IsKey}
use zan_redis_db.Lists.Write.Pushed.{check_coll_kf_size-nil}
use zan_redis_db.Sets.{size_of, has_member}
use zan_redis_db.Sets.Write.{s_add}
use zan_redis_db.Sets.Effect.{Fit}
use zan_redis_db.Sets.Add.{new_of, add_found, after_add, after_add-Holds}
use zan_redis_db.Sets.Written.{Holds, IsGone}

module _ {E : Engine} (db : RockDb E) (ts : ℕ) (key table rk : Bytes) (k : IsKey key table rk) where
  -- The header of a set that is made at a time.
  abbrev fresh_header : HeaderMetaValue
  fresh_header = record { ver = 1; expire_at = 0; value_version = ts; user_data = none }

  module _ (w : IsWord64 ts) (g : IsGone db key table rk fresh_header) where
    coll_header_meta-IsGone : coll_header_meta db ts set_type key ≡ ok (new_header_meta_v1, false)
    unfolding coll_header_meta encode_meta_key decode_raw_value raw_is_expired
    coll_header_meta-IsGone = rw (g.no_meta) refl

    fresh-IsHeader : IsHeader fresh_header
    fresh-IsHeader = record { version_one = refl; expire_fits = omega arith; version_fits = w }

    fresh-alive : header_is_expired fresh_header ts ≡ false
    unfolding header_is_expired
    fresh-alive = refl

    sized-none : size_of none ≡ ok 0
    unfolding size_of
    sized-none = refl

    prepare-IsGone :
        prepare_coll_key_for_write db ts set_type key []
        ≡ ok (record {
          old_header = fresh_header;
          expired = false;
          table = table;
          ver_key = encode_ver_key fresh_header rk;
        })
    unfolding prepare_coll_key_for_write encode_to_version_key is_versioned_type encode_ver_key
        renew_on_expired new_header_meta_v1
    prepare-IsGone = rw (k.named, check_coll_kf_size-nil rk k.rk_fits, coll_header_meta-IsGone) refl

    new_of-nil : (args : List Bytes) → new_of [] args ≡ args
    unfolding select contains
    new_of-nil [] = refl
    new_of-nil (m ∷ ms) = ap (λ (l : List Bytes). m ∷ l) (new_of-nil ms)

    -- SADD of at most 5000 members of allowed sizes to a key of an allowed size that holds nothing
    -- makes a set of them, whose version is the time, and gives their number, where nothing is stored
    -- under that version. A member that is given twice counts twice.
    pub s_add_new :
        (args : List Bytes)
        → length args ≤ max_batch_num
        → Fit key args
        → ((s_add db ts key args).0 ≡ ok (length args))
          × Holds ((s_add db ts key args).1) ts key table rk fresh_header args
    unfolding s_add or_return has_member contains
    s_add_new args few fit =
        let whole : new_of [] args ++ [] ≡ args = append-nil (new_of [] args) ∙ new_of-nil args in
        let made : RockDb E =
          after_add db ts key table rk fresh_header none false [] g.no_batch sized-none
            fresh-IsHeader fresh-alive g.no_members args fit (omega (arith, few)) in
        rw
          (
            le→ltb max_batch_num (length args) few,
            prepare-IsGone,
            add_found db ts key table rk fresh_header none false [] g.no_batch sized-none
                fresh-IsHeader fresh-alive g.no_members args fit (omega (arith, few)),
          )
          (
            ap (λ (n : List Bytes). ok (length n)) (new_of-nil args),
            subst (λ l. Holds made ts key table rk fresh_header l) whole
                (after_add-Holds db ts key table rk fresh_header none false [] g.no_batch sized-none
                  fresh-IsHeader fresh-alive g.no_members args fit (omega (arith, few))),
          )
