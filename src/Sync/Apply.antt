-- ===== src/Sync/Apply.antt =====
-- The part of applyEntry in node/node.go that looks at what another cluster has sent before. The
-- state machine is a parameter, and the kind of a request is a part of it, as json.Unmarshal reads it.
use zan_redis_db.Prelude.{
  ℕ, ◌+◌, ◌%◌, ◌^◌, Bool, true, false, not, ◌&&◌, ◌||◌, Option, none, some, List, [], ◌∷◌, ltb, leb,
  ◌==◌, if◌then◌else◌,
}
use zan_redis_db.Bytes.{Bytes}
use zan_redis_db.Sync.{
  SyncedState, SyncedStateMgr, SnapStatus, snap_transferring, snap_transferred, snap_done,
  snap_failed, get_state, update_state, update_applying_snap_status, add_applying_snap,
}

-- What a request of another cluster is, and the entry that it comes in.
pub data ReqKind : Type 0 where
  plain_request transfer_remote_snap apply_remote_snap other_proposal : ReqKind

pub record RemoteEntry : Type 0 where
  pub orig_cluster : Bytes
  pub orig_term : ℕ
  pub orig_index : ℕ
  pub entry_time : ℕ
  pub kinds : List ReqKind

abbrev pub state_of : RemoteEntry → SyncedState
state_of e = record {
  synced_term = e.orig_term;
  synced_index = e.orig_index;
  timestamp = e.entry_time;
}

-- The errors of the state machine that the manager tells apart.
pub data ApplyError : Type 0 where
  no_error ignored_remote_apply snap_transfer_failed other_error : ApplyError

-- `OrigIndex` is compared with a sum that wraps.
unfoldable pub continues : Option SyncedState → RemoteEntry → Bool
continues none e = true
continues (some old) e = not (ltb ((old.synced_index + 1) % 2 ^ 64) e.orig_index)

unfoldable pub is_continue_commit : SyncedStateMgr → RemoteEntry → Bool
unfolding get_state continues
is_continue_commit rss e = continues (get_state rss e.orig_cluster) e

-- A resent entry is known by its term or its index.
unfoldable pub covers : Option SyncedState → RemoteEntry → Bool
covers none e = false
covers (some old) e = ltb e.orig_term old.synced_term || leb e.orig_index old.synced_index

unfoldable pub is_already_applied : SyncedStateMgr → RemoteEntry → Bool
unfolding get_state covers
is_already_applied rss e = covers (get_state rss e.orig_cluster) e

-- The first transfer or application of a snapshot among the requests.
unfoldable pub snap_kind : List ReqKind → ReqKind
snap_kind [] = plain_request
snap_kind (transfer_remote_snap ∷ kinds) = transfer_remote_snap
snap_kind (apply_remote_snap ∷ kinds) = apply_remote_snap
snap_kind (plain_request ∷ kinds) = snap_kind kinds
snap_kind (other_proposal ∷ kinds) = snap_kind kinds

-- Whether a snapshot is being transferred, and whether one is being applied.
unfoldable pub preprocess_kind :
    SyncedStateMgr → ℕ → RemoteEntry → ReqKind → (Bool × Bool) × SyncedStateMgr
preprocess_kind rss now e transfer_remote_snap = (
  (true, false),
  update_applying_snap_status ((add_applying_snap rss now e.orig_cluster (state_of e)).1) now
      e.orig_cluster (state_of e) snap_transferring,
)
preprocess_kind rss now e apply_remote_snap = ((false, true), rss)
preprocess_kind rss now e plain_request = ((false, false), rss)
preprocess_kind rss now e other_proposal = ((false, false), rss)

unfoldable pub preprocess_remote_snap_apply :
    SyncedStateMgr → ℕ → RemoteEntry → (Bool × Bool) × SyncedStateMgr
unfolding snap_kind preprocess_kind
preprocess_remote_snap_apply rss now e = preprocess_kind rss now e (snap_kind e.kinds)

unfoldable pub is_ignored : ApplyError → Bool
is_ignored ignored_remote_apply = true
is_ignored _ = false

unfoldable pub transfer_status : ApplyError → SnapStatus
transfer_status snap_transfer_failed = snap_failed
transfer_status _ = snap_transferred

-- The state moves on unless the entry is a transfer, or was ignored.
unfoldable pub postprocess_remote_apply :
    SyncedStateMgr → ℕ → RemoteEntry → Bool → Bool → ApplyError → SyncedStateMgr
unfolding is_ignored transfer_status
postprocess_remote_apply rss now e is_transfer is_apply r =
    let c = e.orig_cluster in
    if e.orig_term == 0 && e.orig_index == 0
    then rss
    else if is_transfer
    then update_applying_snap_status rss now c (state_of e) (transfer_status r)
    else if is_ignored r
    then (if is_apply then update_applying_snap_status rss now c (state_of e) snap_failed else rss)
    else let rss' = update_state rss c (state_of e) in
      if is_apply then update_applying_snap_status rss' now c (state_of e) snap_done else rss'

module _ {ℓ} {S : Type ℓ} (run : S → RemoteEntry → ApplyError × S) where
  -- applyEntry for an entry of another cluster, at a time. One that is not continuous is only logged.
  unfoldable pub apply_remote_entry : SyncedStateMgr × S → ℕ → RemoteEntry → SyncedStateMgr × S
  unfolding is_already_applied
  apply_remote_entry (rss, s) now e =
      let pre = preprocess_remote_snap_apply rss now e in
      let done = run s e in
      if is_already_applied rss e
      then (rss, s)
      else (postprocess_remote_apply (pre.1) now e ((pre.0).0) ((pre.0).1) (done.0), done.1)

  unfoldable pub apply_remote_entries :
      SyncedStateMgr × S → List (ℕ × RemoteEntry) → SyncedStateMgr × S
  unfolding apply_remote_entry
  apply_remote_entries st [] = st
  apply_remote_entries st ((now, e) ∷ es) = apply_remote_entries (apply_remote_entry st now e) es
