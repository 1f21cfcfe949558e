-- ===== src/Sync/Examples.antt =====
-- The theorems about entries of other clusters, on a state machine that keeps a list of them.
use zan_redis_db.Prelude.{ℕ, ◌<◌, ◌≡◌, refl, arith, true, false, some, List, [], ◌∷◌}
use zan_redis_db.Bytes.{Bytes, eq_bytes}
use zan_redis_db.Sync.{SyncedState, SyncedStateMgr, find, get_state}
use zan_redis_db.Sync.Apply.{
  RemoteEntry, plain_request, ApplyError, no_error, is_already_applied, is_continue_commit,
  is_ignored, apply_remote_entry, apply_remote_entries,
}
use zan_redis_db.Sync.States.{is_transfer, transfers}
use zan_redis_db.Sync.Once.{resent_entry, applied_stays, gap_skipped}

abbrev far : Bytes
far = b'b' ∷ []

abbrev entry_at : ℕ → RemoteEntry
entry_at i = record {
  orig_cluster = far;
  orig_term = 2;
  orig_index = i;
  entry_time = 7;
  kinds = plain_request ∷ [];
}

abbrev keep : List RemoteEntry → RemoteEntry → ApplyError × List RemoteEntry
keep s e = (no_error, e ∷ s)

abbrev at_five : SyncedState
at_five = record { synced_term = 2; synced_index = 5; timestamp = 7 }

abbrev known : SyncedStateMgr
known = record { synced_states = (far, at_five) ∷ []; snaps_applying = [] }

abbrev two_more : List (ℕ × RemoteEntry)
two_more = (0, entry_at 7) ∷ (0, entry_at 6) ∷ []

plain : is_transfer (entry_at 6) ≡ false
unfolding is_transfer transfers
plain = refl

plain_nine : is_transfer (entry_at 9) ≡ false
unfolding is_transfer transfers
plain_nine = refl

kept : (e : RemoteEntry) → is_ignored ((keep [] e).0) ≡ false
unfolding is_ignored
kept e = refl

resent_entry_example :
    apply_remote_entry keep
      (apply_remote_entries keep (apply_remote_entry keep (known, []) 0 (entry_at 6)) two_more)
      0
      (entry_at 6)
    ≡ apply_remote_entries keep (apply_remote_entry keep (known, []) 0 (entry_at 6)) two_more
resent_entry_example =
    resent_entry keep (known, []) 0 (entry_at 6) refl plain (kept (entry_at 6)) two_more 0

five_known : get_state known far ≡ some at_five
unfolding get_state find eq_bytes
five_known = refl

five_applied : is_already_applied known (entry_at 5) ≡ true
unfolding is_already_applied get_state find eq_bytes
five_applied = refl

applied_stays_example :
    is_already_applied ((apply_remote_entries keep (known, []) two_more).0) (entry_at 5) ≡ true
applied_stays_example = applied_stays keep two_more (known, []) (entry_at 5) five_applied

gap_skipped_example :
    (is_continue_commit known (entry_at 9) ≡ false)
    × ((apply_remote_entry keep (known, []) 0 (entry_at 9)).1 ≡ entry_at 9 ∷ [])
    × ((missing : RemoteEntry) (again : ℕ)
        → missing.orig_cluster ≡ far
        → missing.orig_term ≡ 2
        → missing.orig_index < 9
        → apply_remote_entry keep (apply_remote_entry keep (known, []) 0 (entry_at 9)) again missing
          ≡ apply_remote_entry keep (known, []) 0 (entry_at 9))
gap_skipped_example =
    gap_skipped keep known [] 0 (entry_at 9) at_five five_known (omega arith) (omega arith)
      (omega arith) plain_nine (kept (entry_at 9))
