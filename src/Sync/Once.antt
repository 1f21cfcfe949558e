-- ===== src/Sync/Once.antt =====
-- An entry of another cluster that is sent again is not applied again.
use zan_redis_db.Prelude.{
  ℕ, ◌+◌, ◌%◌, ◌^◌, ◌≤◌, ◌<◌, ◌≡◌, refl, ap, ◌∙◌, arith, Bool, true, false, ◌&&◌, Option, some,
  List, [], ◌∷◌, ◌==◌, if◌then◌else◌, inl, inr, Bool-cases,
}
use zan_redis_db.Bytes.{Bytes, eq_bytes_refl}
use zan_redis_db.Sync.{SyncedState, SyncedStateMgr, find, insert, get_state}
use zan_redis_db.Sync.Apply.{
  RemoteEntry, ApplyError, covers, continues, is_already_applied, is_ignored,
  preprocess_remote_snap_apply, apply_remote_entry, apply_remote_entries, is_continue_commit,
  state_of, snap_kind,
}
use zan_redis_db.Sync.States.{
  find-insert, preprocess_kind-states, moves, postprocess-states, covers_itself, uncovered,
  covers-older, covers-move, kind-transfers, is_transfer,
}

module _ {ℓ} {S : Type ℓ} (run : S → RemoteEntry → ApplyError × S) where
  apply-states :
      (rss : SyncedStateMgr) (s : S) (now : ℕ) (e : RemoteEntry)
      → is_already_applied rss e ≡ false
      → (apply_remote_entry run (rss, s) now e).0.synced_states ≡ (
          if moves e (is_transfer e) ((run s e).0)
          then insert rss.synced_states e.orig_cluster (state_of e)
          else rss.synced_states)
  unfolding apply_remote_entry preprocess_remote_snap_apply is_transfer
  apply-states rss s now e new = rw new (
      postprocess-states _ now e _ _ ((run s e).0)
      ∙ ap
          (λ (m : List (Bytes × SyncedState)).
            if moves e ((preprocess_remote_snap_apply rss now e).0.0) ((run s e).0)
            then insert m e.orig_cluster (state_of e)
            else m)
          (preprocess_kind-states rss now e (snap_kind e.kinds))
      ∙ ap
          (λ (t : Bool).
            if moves e t ((run s e).0)
            then insert rss.synced_states e.orig_cluster (state_of e)
            else rss.synced_states)
          (kind-transfers rss now e (snap_kind e.kinds)))

  -- A step keeps what is applied.
  apply-keeps :
      (st : SyncedStateMgr × S) (now : ℕ) (e e' : RemoteEntry)
      → is_already_applied (st.0) e ≡ true
      → is_already_applied ((apply_remote_entry run st now e').0) e ≡ true
  unfolding apply_remote_entry is_already_applied get_state
  apply-keeps (rss, s) now e e' known = elim (Bool-cases (is_already_applied rss e')) [
    | inl h ↦ rw h known
    | inr h ↦
        ap (λ (m : List (Bytes × SyncedState)). covers (find m e.orig_cluster) e)
          (apply-states rss s now e' h)
        ∙ covers-move rss.synced_states e e' (moves e' (is_transfer e') ((run s e').0)) h known
  ]

  -- What counts as applied stays so, whatever entries of whatever clusters come, in whatever order, and
  -- whatever the state machine answers.
  pub applied_stays :
      (es : List (ℕ × RemoteEntry)) (st : SyncedStateMgr × S) (e : RemoteEntry)
      → is_already_applied (st.0) e ≡ true
      → is_already_applied ((apply_remote_entries run st es).0) e ≡ true
  unfolding apply_remote_entries
  applied_stays [] st e known = known
  applied_stays ((now, e') ∷ es) st e known =
      applied_stays es (apply_remote_entry run st now e') e (apply-keeps st now e e' known)

  covered_skips :
      (st : SyncedStateMgr × S) (now : ℕ) (e : RemoteEntry)
      → is_already_applied (st.0) e ≡ true
      → apply_remote_entry run st now e ≡ st
  unfolding apply_remote_entry
  covered_skips (rss, s) now e known = rw known refl

  -- An entry that was applied is applied already.
  applied_covers :
      (st : SyncedStateMgr × S) (now : ℕ) (e : RemoteEntry)
      → (e.orig_term == 0 && e.orig_index == 0) ≡ false
      → is_transfer e ≡ false
      → is_ignored ((run (st.1) e).0) ≡ false
      → is_already_applied ((apply_remote_entry run st now e).0) e ≡ true
  unfolding is_already_applied get_state moves
  applied_covers (rss, s) now e set plain done = elim (Bool-cases (is_already_applied rss e)) [
    | inl h ↦
        ap (λ (st : SyncedStateMgr × S). is_already_applied (st.0) e)
          (covered_skips (rss, s) now e h)
        ∙ h
    | inr h ↦
        let on : moves e (is_transfer e) ((run s e).0) ≡ true = rw (set, plain, done) refl in
        ap (λ (m : List (Bytes × SyncedState)). covers (find m e.orig_cluster) e)
          (apply-states rss s now e h)
        ∙ ap
            (λ (b : Bool).
              covers
                (find
                  (if b
                    then insert rss.synced_states e.orig_cluster (state_of e)
                    else rss.synced_states)
                  e.orig_cluster)
                e)
            on
        ∙ ap (λ (o : Option SyncedState). covers o e)
            (find-insert rss.synced_states e.orig_cluster (state_of e) e.orig_cluster)
        ∙ rw (eq_bytes_refl e.orig_cluster) (covers_itself e)
  ]

  -- An entry of another cluster that was applied, or counted as applied, is not applied again when it is sent again, whatever entries come between: nothing changes. The entry has a term or
  -- an index, transfers no snapshot, and was not ignored by the state machine.
  pub resent_entry :
      (st : SyncedStateMgr × S) (now : ℕ) (e : RemoteEntry)
      → (e.orig_term == 0 && e.orig_index == 0) ≡ false
      → is_transfer e ≡ false
      → is_ignored ((run (st.1) e).0) ≡ false
      → (es : List (ℕ × RemoteEntry)) (again : ℕ)
      → apply_remote_entry run
          (apply_remote_entries run (apply_remote_entry run st now e) es)
          again
          e
        ≡ apply_remote_entries run (apply_remote_entry run st now e) es
  resent_entry st now e set plain done es again =
      covered_skips (apply_remote_entries run (apply_remote_entry run st now e) es) again e (
        applied_stays es (apply_remote_entry run st now e) e
          (applied_covers st now e set plain done))

  -- An entry behind a gap, which is neither of an older term nor the next one after what is known of
  -- its cluster, is applied nevertheless; and the entries of its term that are missing count as
  -- applied from then on, and are skipped. The entry has a term or an index, transfers no snapshot,
  -- and is not ignored by the state machine; the known index is below 2^64 - 1.
  pub gap_skipped :
      (rss : SyncedStateMgr) (s : S) (now : ℕ) (e : RemoteEntry) (old : SyncedState)
      → get_state rss e.orig_cluster ≡ some old
      → old.synced_term ≤ e.orig_term
      → old.synced_index + 1 < e.orig_index
      → old.synced_index + 1 < 2 ^ 64
      → is_transfer e ≡ false
      → is_ignored ((run s e).0) ≡ false
      → (is_continue_commit rss e ≡ false)
        × ((apply_remote_entry run (rss, s) now e).1 ≡ (run s e).1)
        × ((missing : RemoteEntry) (again : ℕ)
            → missing.orig_cluster ≡ e.orig_cluster
            → missing.orig_term ≡ e.orig_term
            → missing.orig_index < e.orig_index
            → apply_remote_entry run (apply_remote_entry run (rss, s) now e) again missing
              ≡ apply_remote_entry run (rss, s) now e)
  unfolding is_continue_commit continues is_already_applied get_state apply_remote_entry
  gap_skipped rss s now e old known term gap small plain done =
      let next : (old.synced_index + 1) % 2 ^ 64 ≡ old.synced_index + 1 = omega arith in
      let new : is_already_applied rss e ≡ false =
        ap (λ (o : Option SyncedState). covers o e) known ∙ uncovered old e term gap in
      let set : (e.orig_term == 0 && e.orig_index == 0) ≡ false = ground (arith, gap) in
      let after : SyncedStateMgr × S = apply_remote_entry run (rss, s) now e in
      (
        ap (λ (o : Option SyncedState). continues o e) known ∙ rw next (ground (arith, gap)),
        rw new refl,
        λ missing again cluster same_term below. covered_skips after again missing (
            ap (λ (c : Bytes). covers (find (after.0).synced_states c) missing) cluster
            ∙ covers-older (find (after.0).synced_states e.orig_cluster) e missing same_term below
                (applied_covers (rss, s) now e set plain done)),
      )
