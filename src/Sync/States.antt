-- ===== src/Sync/States.antt =====
-- How the manager's maps and the synced states change when an entry is applied.
use zan_redis_db.Prelude.{
  ℕ, ◌+◌, ◌≤◌, ◌<◌, ◌≡◌, refl, sym, ap, ◌∙◌, arith, Bool, true, false, not, ◌&&◌, Option, none,
  some, List, [], ◌∷◌, ◌==◌, if◌then◌else◌, inl, inr, Bool-cases,
}
use zan_redis_db.Bytes.{Bytes, eq_bytes, eq_bytes_refl, eq_bytes_sound}
use zan_redis_db.Sync.{
  SyncedState, SyncedStateMgr, SnapApplyStatus, SnapStatus, find, insert, update_state,
  update_found, add_found, update_applying_snap_status, add_applying_snap, snap_transferring,
  can_add, is_same, same_status, snap_failed, snap_done,
}
use zan_redis_db.Sync.Apply.{
  RemoteEntry, ReqKind, plain_request, transfer_remote_snap, apply_remote_snap, other_proposal,
  ApplyError, covers, is_ignored, preprocess_kind, postprocess_remote_apply, state_of, snap_kind,
  transfer_status,
}

if-if :
    {A : Type 0} (b : Bool) (x y z : A)
    → (if b then x else y) ≡ (if b then x else if b then z else y)
if-if true x y z = refl
if-if false x y z = refl

swap :
    {A : Type 0} (n name other : Bytes) (x y z : A)
    → eq_bytes n name ≡ false
    → (if eq_bytes n other then x else if eq_bytes name other then y else z)
      ≡ (if eq_bytes name other then y else if eq_bytes n other then x else z)
swap n name other x y z differ = elim (Bool-cases (eq_bytes n other)) [
  | inl h ↦ elim (Bool-cases (eq_bytes name other)) [
    | inl k ↦
        let both : n ≡ name = eq_bytes_sound n other h ∙ sym (eq_bytes_sound name other k) in
        absurd (contradicts (ap (eq_bytes n) (sym both) ∙ eq_bytes_refl n))
    | inr k ↦ rw (h, k) refl
  ]
  | inr h ↦ rw h refl
]
  where
    contradicts : eq_bytes n name ≡ true → ⊥
    contradicts e = ground (arith, e, differ)

pub find-insert :
    {A : Type 0} (m : List (Bytes × A)) (name : Bytes) (a : A) (other : Bytes)
    → find (insert m name a) other ≡ (if eq_bytes name other then some a else find m other)
unfolding find insert
find-insert [] name a other = refl
find-insert ((n, b) ∷ m) name a other = elim (Bool-cases (eq_bytes n name)) [
  | inl h ↦
      let same : n ≡ name = eq_bytes_sound n name h in
      rw h (
        ap (λ (k : Bytes). if eq_bytes k other then some a else find m other) same
        ∙ if-if (eq_bytes name other) (some a) (find m other) (some b)
        ∙ ap
            (λ (k : Bytes).
              if eq_bytes name other
              then some a
              else if eq_bytes k other
              then some b
              else find m other)
            (sym same))
  | inr h ↦ rw h (
      ap (λ (o : Option _). if eq_bytes n other then some b else o) (find-insert m name a other)
      ∙ swap n name other (some b) (some a) (find m other) h)
]

-- The bookkeeping of snapshots leaves the synced states alone.
update_found-states :
    (rss : SyncedStateMgr) (now : ℕ) (name : Bytes) (ss : SyncedState) (status : SnapStatus)
    (found : Option SnapApplyStatus)
    → (update_found rss now name ss status found).synced_states ≡ rss.synced_states
unfolding update_found
update_found-states rss now name ss status none = refl
update_found-states rss now name ss status (some sas) =
    elim (Bool-cases (is_same ss sas.snap_state && not (same_status sas.status_code status))) [
      | inl h ↦ rw h refl
      | inr h ↦ rw h refl
    ]

update-states :
    (rss : SyncedStateMgr) (now : ℕ) (name : Bytes) (ss : SyncedState) (status : SnapStatus)
    → (update_applying_snap_status rss now name ss status).synced_states ≡ rss.synced_states
unfolding update_applying_snap_status
update-states rss now name ss status =
    update_found-states rss now name ss status (find rss.snaps_applying name)

add_found-states :
    (rss : SyncedStateMgr) (now : ℕ) (name : Bytes) (ss : SyncedState)
    (found : Option SnapApplyStatus)
    → (add_found rss now name ss found).1.synced_states ≡ rss.synced_states
unfolding add_found
add_found-states rss now name ss none = refl
add_found-states rss now name ss (some sas) = elim (Bool-cases (can_add now ss sas)) [
  | inl h ↦ rw h refl
  | inr h ↦ rw h refl
]

pub preprocess_kind-states :
    (rss : SyncedStateMgr) (now : ℕ) (e : RemoteEntry) (k : ReqKind)
    → (preprocess_kind rss now e k).1.synced_states ≡ rss.synced_states
unfolding preprocess_kind add_applying_snap
preprocess_kind-states rss now e transfer_remote_snap =
    update-states _ now e.orig_cluster (state_of e) snap_transferring
    ∙ add_found-states rss now e.orig_cluster (state_of e) (find rss.snaps_applying e.orig_cluster)
preprocess_kind-states rss now e apply_remote_snap = refl
preprocess_kind-states rss now e plain_request = refl
preprocess_kind-states rss now e other_proposal = refl

-- Whether the synced state of a cluster moves on to an entry.
unfoldable pub moves : RemoteEntry → Bool → ApplyError → Bool
moves e is_transfer r =
    not (e.orig_term == 0 && e.orig_index == 0) && not is_transfer && not (is_ignored r)

pub postprocess-states :
    (rss : SyncedStateMgr) (now : ℕ) (e : RemoteEntry) (is_transfer is_apply : Bool)
    (r : ApplyError)
    → (postprocess_remote_apply rss now e is_transfer is_apply r).synced_states ≡ (
        if moves e is_transfer r
        then insert rss.synced_states e.orig_cluster (state_of e)
        else rss.synced_states)
unfolding postprocess_remote_apply moves update_state
postprocess-states rss now e is_transfer is_apply r =
    elim (Bool-cases (e.orig_term == 0 && e.orig_index == 0)) [
      | inl z ↦ rw z refl
      | inr z ↦ elim (Bool-cases is_transfer) [
        | inl t ↦ rw (z, t) (update-states rss now e.orig_cluster (state_of e) (transfer_status r))
        | inr t ↦ elim (Bool-cases (is_ignored r)) [
          | inl i ↦ elim (Bool-cases is_apply) [
            | inl a ↦
                rw (z, t, i, a) (update-states rss now e.orig_cluster (state_of e) snap_failed)
            | inr a ↦ rw (z, t, i, a) refl
          ]
          | inr i ↦ elim (Bool-cases is_apply) [
            | inl a ↦ rw (z, t, i, a) (update-states _ now e.orig_cluster (state_of e) snap_done)
            | inr a ↦ rw (z, t, i, a) refl
          ]
        ]
      ]
    ]

pub covers_itself : (e : RemoteEntry) → covers (some (state_of e)) e ≡ true
unfolding covers
covers_itself e = ground arith

pub uncovered :
    (old : SyncedState) (e : RemoteEntry)
    → old.synced_term ≤ e.orig_term
    → old.synced_index + 1 < e.orig_index
    → covers (some old) e ≡ false
unfolding covers
uncovered old e term gap = ground (arith, term, gap)

pub covers-older :
    (o : Option SyncedState) (e missing : RemoteEntry)
    → missing.orig_term ≡ e.orig_term
    → missing.orig_index < e.orig_index
    → covers o e ≡ true
    → covers o missing ≡ true
unfolding covers
covers-older none e missing term below known = known
covers-older (some old) e missing term below known = ground (arith, term, below, known)

later :
    (o : Option SyncedState) (e e' : RemoteEntry)
    → covers o e' ≡ false
    → covers o e ≡ true
    → covers (some (state_of e')) e ≡ true
unfolding covers
later none e e' new known = ground (arith, known)
later (some old) e e' new known = ground (arith, new, known)

-- A state that is known covers more after it moved on to an entry that it did not cover.
pub covers-move :
    (m : List (Bytes × SyncedState)) (e e' : RemoteEntry) (b : Bool)
    → covers (find m e'.orig_cluster) e' ≡ false
    → covers (find m e.orig_cluster) e ≡ true
    → covers (find (if b then insert m e'.orig_cluster (state_of e') else m) e.orig_cluster) e
      ≡ true
covers-move m e e' false new known = known
covers-move m e e' true new known =
    ap (λ (o : Option SyncedState). covers o e)
      (find-insert m e'.orig_cluster (state_of e') e.orig_cluster)
    ∙ elim (Bool-cases (eq_bytes e'.orig_cluster e.orig_cluster)) [
      | inl h ↦
          let same : e'.orig_cluster ≡ e.orig_cluster =
            eq_bytes_sound e'.orig_cluster e.orig_cluster h in
          rw h (
            later (find m e.orig_cluster) e e'
              (ap (λ (k : Bytes). covers (find m k) e') (sym same) ∙ new) known)
      | inr h ↦ rw h known
    ]

unfoldable pub transfers : ReqKind → Bool
transfers transfer_remote_snap = true
transfers _ = false

-- Whether an entry transfers a snapshot.
unfoldable pub is_transfer : RemoteEntry → Bool
unfolding transfers snap_kind
is_transfer e = transfers (snap_kind e.kinds)

pub kind-transfers :
    (rss : SyncedStateMgr) (now : ℕ) (e : RemoteEntry) (k : ReqKind)
    → (preprocess_kind rss now e k).0.0 ≡ transfers k
unfolding preprocess_kind transfers
kind-transfers rss now e transfer_remote_snap = refl
kind-transfers rss now e apply_remote_snap = refl
kind-transfers rss now e plain_request = refl
kind-transfers rss now e other_proposal = refl
