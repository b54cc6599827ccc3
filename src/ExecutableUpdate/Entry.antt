-- ===== src/ExecutableUpdate/Entry.antt =====
-- `apply_pending` and `mark_pending_ready` of src/executable_update.rs.
use conda_ship.Prelude.{Bool, false, Text, ◌≡◌, ◌⊎◌, inl, inr, refl}
use conda_ship.Fs.FilePath.{FilePath}
use conda_ship.Fs.Failure.{not_approved}
use conda_ship.Fs.Calls.{Files}
use conda_ship.Fs.Triple.{Runs, bind, weaken, return-Runs, fail-Runs}
use conda_ship.Fs.Reads.{step_reads}
use conda_ship.Config.Metadata.{PendingExecutablePhase}
use conda_ship.ExecutableUpdate.Types.{ExecutableUpdateOutcome, Host, set_phase}
use conda_ship.ExecutableUpdate.Stamp.{read_owned_metadata}
use conda_ship.ExecutableUpdate.Facts.{acquire-Reads, direct_update-Reads}
use conda_ship.ExecutableUpdate.Setting.{
  Selection, pending_meta, committed, Places, IsSound, Records, RecordsSettled, OldInPlace,
  InProgress, approved, begun, moved_over, installed,
}
use conda_ship.ExecutableUpdate.Steps.{
  InFrame, Frame-OldInPlace, Frame-NewInPlace, direct-Reads, persist-Runs,
  validate_pending_paths-Reads, classify_staged-Reads,
}
use conda_ship.ExecutableUpdate.Apply.{apply_approved-Runs, apply_begun-Runs, apply_moved-Runs}
use conda_ship.ExecutableUpdate.Recover.{validate_current_metadata-Reads, read-Runs, Finished}
use conda_ship.ExecutableUpdate.Commands.{apply_pending, mark_pending_ready}

module _ (host : Host) (prefix : FilePath) (metadata_file : Text) (c : Selection)
    (p : Places prefix metadata_file c) (ok : IsSound host prefix metadata_file c p) where
  module _ {quiet : Bool} {s : Files} {E : Files → Type 0} where
    -- `read_owned_metadata`, where an update is recorded.
    pub read_owned_metadata-Runs :
        (phase : PendingExecutablePhase)
        → Records host prefix metadata_file c p ok s (pending_meta c phase)
        → ((t : Files)
            → Records host prefix metadata_file c p ok t (pending_meta c phase)
            → InFrame host prefix metadata_file c p ok s t
            → E t)
        → Runs quiet s
            (read_owned_metadata host prefix metadata_file)
            (λ r t.
              (r ≡ pending_meta c phase)
              × RecordsSettled host prefix metadata_file c p ok t (pending_meta c phase)
              × InFrame host prefix metadata_file c p ok s t)
            E
    unfolding read_owned_metadata
    read_owned_metadata-Runs phase r k =
        bind _ (read-Runs host prefix metadata_file c p ok _ r k) λ m t (same, there, frame).
          rw same (
            step_reads _ tt
              (validate_current_metadata-Reads host prefix metadata_file c p ok _ refl refl refl
                refl refl)
              (return-Runs _ (refl, there, frame)))

    pub read_owned_committed-Runs :
        Records host prefix metadata_file c p ok s (committed c)
        → ((t : Files)
            → Records host prefix metadata_file c p ok t (committed c)
            → InFrame host prefix metadata_file c p ok s t
            → E t)
        → Runs quiet s
            (read_owned_metadata host prefix metadata_file)
            (λ r t.
              (r ≡ committed c)
              × RecordsSettled host prefix metadata_file c p ok t (committed c)
              × InFrame host prefix metadata_file c p ok s t)
            E
    unfolding read_owned_metadata
    read_owned_committed-Runs r k =
        bind _ (read-Runs host prefix metadata_file c p ok _ r k) λ m t (same, there, frame).
          rw same (
            step_reads _ tt
              (validate_current_metadata-Reads host prefix metadata_file c p ok _ refl refl refl
                refl refl)
              (return-Runs _ (refl, there, frame)))

  module _ {quiet : Bool} {s : Files} where
    -- `apply_pending`, from each state of an approved update: an undisturbed run succeeds with the
    -- new executable installed and recorded, and a run that fails or stops at any call leaves a
    -- state from which the update can be finished. It reports `applied`, or `unneeded` where the
    -- update was in place already.
    pub apply_pending-Runs :
        (h : InProgress host prefix metadata_file c p ok s)
        → Runs quiet s
            (apply_pending host prefix metadata_file)
            (Finished host prefix metadata_file c p ok h)
            (InProgress host prefix metadata_file c p ok)
    unfolding apply_pending
    apply_pending-Runs (approved r f) =
        step_reads _ tt (acquire-Reads (approved r f) prefix _ _ p.prefix_above p.prefix_named) (
          bind _
            (read_owned_metadata-Runs _ r λ t still frame.
              approved still (Frame-OldInPlace host prefix metadata_file c p ok s t frame f))
            λ m t (same, there, frame).
              let g = Frame-OldInPlace host prefix metadata_file c p ok s t frame f in
              rw same (
                step_reads _ _
                  (direct-Reads host prefix metadata_file c p ok (approved (inl there) g) _)
                  (apply_approved-Runs host prefix metadata_file c p ok there g)))
    apply_pending-Runs (begun r f) =
        step_reads _ tt (acquire-Reads (begun r f) prefix _ _ p.prefix_above p.prefix_named) (
          bind _
            (read_owned_metadata-Runs _ r λ t still frame.
              begun still (Frame-OldInPlace host prefix metadata_file c p ok s t frame f))
            λ m t (same, there, frame).
              let g = Frame-OldInPlace host prefix metadata_file c p ok s t frame f in
              rw same (
                step_reads _ _
                  (direct-Reads host prefix metadata_file c p ok (begun (inl there) g) _)
                  (apply_begun-Runs host prefix metadata_file c p ok there g)))
    apply_pending-Runs (moved_over r f) =
        step_reads _ tt (acquire-Reads (moved_over r f) prefix _ _ p.prefix_above p.prefix_named) (
          bind _
            (read_owned_metadata-Runs _ r λ t still frame.
              moved_over still (Frame-NewInPlace host prefix metadata_file c p ok s t frame f))
            λ m t (same, there, frame).
              let g = Frame-NewInPlace host prefix metadata_file c p ok s t frame f in
              rw same (
                step_reads _ _
                  (direct-Reads host prefix metadata_file c p ok (moved_over (inl there) g) _)
                  (apply_moved-Runs host prefix metadata_file c p ok there g)))
    apply_pending-Runs (installed r f) =
        step_reads _ tt (acquire-Reads (installed r f) prefix _ _ p.prefix_above p.prefix_named) (
          bind _
            (read_owned_committed-Runs r λ t still frame.
              installed still (Frame-NewInPlace host prefix metadata_file c p ok s t frame f))
            λ m t (same, there, frame).
              let g = Frame-NewInPlace host prefix metadata_file c p ok s t frame f in
              rw same (
                step_reads _ _
                  (direct_update-Reads (installed (inl there) g) (committed c) _ refl ok.owned
                    ok.absolute ok.complete ok.new_verified.valid)
                  (return-Runs ExecutableUpdateOutcome.unneeded
                    (refl, record { recorded = there; files = g }))))

  -- A staged update is recorded, and its files stand ready.
  abbrev pub Staged : Files → Type 0
  Staged s =
      Records host prefix metadata_file c p ok s (pending_meta c PendingExecutablePhase.staged)
      × OldInPlace host prefix metadata_file c p ok s

  module _ {s : Files} where
    -- Without approval, `apply_pending` never succeeds, whatever the system does, and it leaves the
    -- update staged, and the old executable in place.
    pub apply_pending_unapproved :
        Staged s → Runs false s (apply_pending host prefix metadata_file) (λ o t. ⊥) Staged
    unfolding apply_pending
    apply_pending_unapproved (r, f) =
        step_reads _ tt (acquire-Reads (r, f) prefix _ _ p.prefix_above p.prefix_named) (
          bind _
            (read_owned_metadata-Runs _ r λ t still frame.
              (still, Frame-OldInPlace host prefix metadata_file c p ok s t frame f))
            λ m t (same, there, frame).
              let g = Frame-OldInPlace host prefix metadata_file c p ok s t frame f in
              rw same (
                step_reads _ _ (direct-Reads host prefix metadata_file c p ok (inl there, g) _)
                  (fail-Runs not_approved refl (inl there, g))))

    -- Approval of a staged update records the phase `ready` and touches no executable; it succeeds
    -- if no call is disturbed. An interrupted approval leaves the update staged or approved.
    pub mark_pending_ready-Runs :
        {quiet : Bool}
        → Staged s
        → Runs quiet s
            (mark_pending_ready host prefix metadata_file)
            (λ o t.
              (o ≡ ExecutableUpdateOutcome.ready)
              × RecordsSettled host prefix metadata_file c p ok t
                  (pending_meta c PendingExecutablePhase.ready)
              × OldInPlace host prefix metadata_file c p ok t)
            (λ t. Staged t ⊎ InProgress host prefix metadata_file c p ok t)
    unfolding mark_pending_ready set_phase
    mark_pending_ready-Runs (r, f) =
        let phase = PendingExecutablePhase.staged in
        step_reads _ tt (acquire-Reads (inl (r, f)) prefix _ _ p.prefix_above p.prefix_named) (
          bind _
            (read_owned_metadata-Runs _ r λ t still frame.
              inl (still, Frame-OldInPlace host prefix metadata_file c p ok s t frame f))
            λ m t (same, there, frame).
              let g = Frame-OldInPlace host prefix metadata_file c p ok s t frame f in
              let h = inl (inl there, g) in
              rw same (
                step_reads _ _ (direct-Reads host prefix metadata_file c p ok h phase) (
                  step_reads _ _
                    (validate_pending_paths-Reads host prefix metadata_file c p ok h phase)
                    (step_reads _ _
                      (classify_staged-Reads host prefix metadata_file c p ok h phase g)
                      (bind _
                        (weaken
                          (persist-Runs host prefix metadata_file c p ok _
                            (pending_meta c PendingExecutablePhase.ready) ok.same_file there)
                          (λ _ v k. k)
                          (λ v (which, kept).
                            sort v (Frame-OldInPlace host prefix metadata_file c p ok t v kept g)
                              which))
                        λ _ v (settled, kept). return-Runs _ (
                          refl,
                          settled,
                          Frame-OldInPlace host prefix metadata_file c p ok t v kept g,
                        ))))))
      where
        sort :
            (t : Files)
            → OldInPlace host prefix metadata_file c p ok t
            → Records host prefix metadata_file c p ok t
                (pending_meta c PendingExecutablePhase.staged)
              ⊎ Records host prefix metadata_file c p ok t
                  (pending_meta c PendingExecutablePhase.ready)
            → Staged t ⊎ InProgress host prefix metadata_file c p ok t
        sort t f (inl r) = inl (r, f)
        sort t f (inr r) = inr (approved r f)
