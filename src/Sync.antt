-- ===== src/Sync.antt =====
-- node/remote_sync_mgr.go: what a node knows of the raft logs of other clusters that it has applied,
-- and of their snapshots. The time is an argument, in nanoseconds.
pub mod Apply
pub mod States
pub mod Once
mod Examples
use zan_redis_db.Prelude.{
  ℕ, ◌+◌, ◌-◌, ◌*◌, ◌%◌, ◌^◌, Bool, true, false, not, ◌&&◌, ◌||◌, Option, none, some, List, [], ◌∷◌,
  ltb, leb, ◌==◌, if◌then◌else◌,
}
use zan_redis_db.Bytes.{Bytes, eq_bytes}

pub record SyncedState : Type 0 where
  pub synced_term : ℕ
  pub synced_index : ℕ
  pub timestamp : ℕ

abbrev pub is_newer : SyncedState → SyncedState → Bool
is_newer ss other = leb other.synced_term ss.synced_term && leb other.synced_index ss.synced_index

abbrev pub is_same : SyncedState → SyncedState → Bool
is_same ss other = ss.synced_term == other.synced_term && ss.synced_index == other.synced_index

pub data SnapStatus : Type 0 where
  snap_unknown snap_begin snap_transferring snap_transferred snap_applying snap_done snap_failed :
      SnapStatus

pub record SnapApplyStatus : Type 0 where
  pub snap_state : SyncedState
  pub status_code : SnapStatus
  pub updated_time : ℕ

-- The maps of the manager, by the name of a cluster.
pub record SyncedStateMgr : Type 0 where
  pub synced_states : List (Bytes × SyncedState)
  pub snaps_applying : List (Bytes × SnapApplyStatus)

unfoldable pub find {ℓ} : {A : Type ℓ} → List (Bytes × A) → Bytes → Option A
find [] name = none
find ((n, a) ∷ m) name = if eq_bytes n name then some a else find m name

unfoldable pub insert {ℓ} : {A : Type ℓ} → List (Bytes × A) → Bytes → A → List (Bytes × A)
insert [] name a = (name, a) ∷ []
insert ((n, b) ∷ m) name a =
    let rest = insert m name a in if eq_bytes n name then (n, a) ∷ m else (n, b) ∷ rest

unfoldable pub remove {ℓ} : {A : Type ℓ} → List (Bytes × A) → Bytes → List (Bytes × A)
remove [] name = []
remove ((n, b) ∷ m) name =
    let rest = remove m name in if eq_bytes n name then rest else (n, b) ∷ rest

abbrev pub sync_state_timeout : ℕ
sync_state_timeout = 5 * 60 * 1000000000

unfoldable pub get_state : SyncedStateMgr → Bytes → Option SyncedState
unfolding find
get_state rss name = find rss.synced_states name

unfoldable pub update_state : SyncedStateMgr → Bytes → SyncedState → SyncedStateMgr
unfolding insert
update_state rss name state = record rss { synced_states = insert rss.synced_states name state }

pub restore_states : SyncedStateMgr → List (Bytes × SyncedState) → SyncedStateMgr
restore_states rss ss = record rss { synced_states = ss }

pub remove_applying_snap : SyncedStateMgr → Bytes → SyncedState → SyncedStateMgr
unfolding find remove
remove_applying_snap rss name state = elim (find rss.snaps_applying name) [
  | none ↦ rss
  | some sas ↦
      if is_same sas.snap_state state
      then record rss { snaps_applying = remove rss.snaps_applying name }
      else rss
]

-- Whether a snapshot takes the place of one that is known: of one that is done, and of one that
-- waits too long, unless it is being transferred and not older.
can_add : ℕ → SyncedState → SnapApplyStatus → Bool
can_add now state sas = elim (sas.status_code) [
  | snap_done ↦ true
  | snap_unknown ↦ not (is_newer sas.snap_state state) && late
  | snap_transferring ↦ not (is_newer sas.snap_state state) && late
  | snap_transferred ↦ not (is_newer sas.snap_state state) && late
  | _ ↦ late
]
  where
    late : Bool
    late = ltb sync_state_timeout (now - sas.updated_time)

-- The status that the manager then has for the cluster, and whether it is new.
add_found :
    SyncedStateMgr
    → ℕ
    → Bytes
    → SyncedState
    → Option SnapApplyStatus
    → (SnapApplyStatus × Bool) × SyncedStateMgr
unfolding insert can_add
add_found rss now name state found =
    let begun : SnapApplyStatus = record {
      snap_state = state;
      status_code = snap_begin;
      updated_time = now;
    } in
    let added : SyncedStateMgr = record rss {
      snaps_applying = insert rss.snaps_applying name begun;
    } in
    elim found [
      | none ↦ ((begun, true), added)
      | some sas ↦ if can_add now state sas then ((begun, true), added) else ((sas, false), rss)
    ]

unfoldable pub add_applying_snap :
    SyncedStateMgr → ℕ → Bytes → SyncedState → (SnapApplyStatus × Bool) × SyncedStateMgr
unfolding find add_found
add_applying_snap rss now name state = add_found rss now name state (find rss.snaps_applying name)

abbrev same_status : SnapStatus → SnapStatus → Bool
same_status snap_unknown snap_unknown = true
same_status snap_begin snap_begin = true
same_status snap_transferring snap_transferring = true
same_status snap_transferred snap_transferred = true
same_status snap_applying snap_applying = true
same_status snap_done snap_done = true
same_status snap_failed snap_failed = true
same_status _ _ = false

-- Only the status of the same snapshot is changed, and its time only with its status.
update_found :
    SyncedStateMgr → ℕ → Bytes → SyncedState → SnapStatus → Option SnapApplyStatus → SyncedStateMgr
unfolding insert
update_found rss now name ss status none = rss
update_found rss now name ss status (some sas) =
    if is_same ss sas.snap_state && not (same_status sas.status_code status)
    then record rss {
      snaps_applying =
          insert rss.snaps_applying name
            (record { snap_state = sas.snap_state; status_code = status; updated_time = now });
    }
    else rss

unfoldable pub update_applying_snap_status :
    SyncedStateMgr → ℕ → Bytes → SyncedState → SnapStatus → SyncedStateMgr
unfolding find update_found
update_applying_snap_status rss now name ss status =
    update_found rss now name ss status (find rss.snaps_applying name)

-- Why ApplyRemoteSnapshot refuses. Otherwise it proposes the snapshot's application.
pub data SnapRefusal : Type 0 where
  not_syncer_only no_snapshot_waiting snapshot_mismatch invalid_status : SnapRefusal

-- The status of a snapshot that is waiting, by which it is applied or refused.
apply_found :
    SyncedStateMgr
    → ℕ
    → Bytes
    → ℕ
    → ℕ
    → Option SnapApplyStatus
    → Option SnapRefusal × SyncedStateMgr
unfolding update_applying_snap_status
apply_found rss now name term index none = (some no_snapshot_waiting, rss)
apply_found rss now name term index (some sas) =
    let late : Bool = ltb sync_state_timeout (now - sas.updated_time) in
    let ready : Bool =
      same_status sas.status_code snap_transferred
      || same_status sas.status_code snap_applying && late in
    if not (sas.snap_state.synced_term == term && sas.snap_state.synced_index == index)
    then (some snapshot_mismatch, rss)
    else if not ready
    then (some invalid_status, rss)
    else (none, update_applying_snap_status rss now name sas.snap_state snap_applying)

pub apply_remote_snapshot :
    SyncedStateMgr → ℕ → Bool → Bool → Bytes → ℕ → ℕ → Option SnapRefusal × SyncedStateMgr
unfolding apply_found
apply_remote_snapshot rss now syncer_only skip name term index =
    if skip
    then (none, rss)
    else if not syncer_only
    then (some not_syncer_only, rss)
    else apply_found rss now name term index (find rss.snaps_applying name)

-- Whether the transfer is proposed: another snapshot that is running refuses it.
pub begin_transfer_remote_snap : SyncedStateMgr → ℕ → Bytes → ℕ → ℕ → Bool × SyncedStateMgr
unfolding add_applying_snap
begin_transfer_remote_snap rss now name term index =
    let ss : SyncedState = record { synced_term = term; synced_index = index; timestamp = 0 } in
    let ((sas, added), rss') = add_applying_snap rss now name ss in
    (added || is_same sas.snap_state ss, rss')
