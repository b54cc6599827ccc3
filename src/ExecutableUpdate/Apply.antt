-- ===== src/ExecutableUpdate/Apply.antt =====
-- The replacement of the executable and its recovery: an approved update is carried to its end.
use conda_ship.Prelude.{Bool, Text, ◌≡◌, ◌≢◌, ◌⊎◌, inl, inr, refl, sym, ◌∙◌, list_eq, number_eq}
use conda_ship.Fs.FilePath.{FilePath}
use conda_ship.Fs.Calls.{Files, moved, moved_to, moved_from, moved_else}
use conda_ship.Fs.Triple.{Runs, bind, weaken, return-Runs, step_rename}
use conda_ship.Fs.Reads.{step_reads, step_from_option}
use conda_ship.Config.Metadata.{PendingExecutablePhase}
use conda_ship.ExecutableUpdate.Types.{
  ExecutableUpdateOutcome, Host, set_phase, clear_pending, commit_new_version,
}
use conda_ship.ExecutableUpdate.Protocol.{
  finish_new, replace_candidate, apply_or_recover_locked, apply_in_state,
}
use conda_ship.ExecutableUpdate.Setting.{
  Selection, pending_meta, committed, Places, target_of, candidate_of, IsSound, Records,
  RecordsSettled, OldInPlace, NewInPlace, InProgress, approved, begun, moved_over, installed,
  IsInstalled,
}
use conda_ship.ExecutableUpdate.Names.{candidate-ne-target, backup-ne-target, backup-ne-candidate}
use conda_ship.Fs.Failure.{nothing_pending}
use conda_ship.ExecutableUpdate.Steps.{
  persist-Runs, Frame-OldInPlace, Frame-NewInPlace, direct-Reads, candidate_path-Reads,
  classify_staged-Reads, classify_moved-Reads, validate_pending_paths-Reads,
}

module _ (host : Host) (prefix : FilePath) (metadata_file : Text) (c : Selection)
    (p : Places prefix metadata_file c) (ok : IsSound host prefix metadata_file c p) where
  module _ {s : Files}
      (there : RecordsSettled host prefix metadata_file c p ok s
        (pending_meta c PendingExecutablePhase.replacing)) where
    -- A write of the committed metadata, with the new file in place.
    pub finish_new-Runs :
        {quiet : Bool}
        → NewInPlace host prefix metadata_file c p ok s
        → Runs quiet s
            (finish_new host prefix metadata_file (pending_meta c PendingExecutablePhase.replacing))
            (λ o t.
              (o ≡ ExecutableUpdateOutcome.applied)
              × IsInstalled host prefix metadata_file c p ok t)
            (InProgress host prefix metadata_file c p ok)
    unfolding finish_new clear_pending commit_new_version
    finish_new-Runs files =
        bind _
          (weaken (persist-Runs host prefix metadata_file c p ok _ (committed c) ok.same_file there)
            (λ _ t h. h)
            (λ t (which, frame).
              sort t (Frame-NewInPlace host prefix metadata_file c p ok s t frame files) which))
          (λ _ t (recorded, frame). return-Runs _ (
            refl,
            record {
              recorded = recorded;
              files = Frame-NewInPlace host prefix metadata_file c p ok s t frame files;
            },
          ))
      where
        sort :
            (t : Files)
            → NewInPlace host prefix metadata_file c p ok t
            → Records host prefix metadata_file c p ok t
                (pending_meta c PendingExecutablePhase.replacing)
              ⊎ Records host prefix metadata_file c p ok t (committed c)
            → InProgress host prefix metadata_file c p ok t
        sort t f (inl r) = moved_over r f
        sort t f (inr r) = installed r f

  module _ {s : Files}
      (there : RecordsSettled host prefix metadata_file c p ok s
        (pending_meta c PendingExecutablePhase.replacing)) where
    after_move : Files
    after_move = moved (candidate_of p) (target_of c) ok.new_bytes s

    moved-settled :
        RecordsSettled host prefix metadata_file c p ok after_move
          (pending_meta c PendingExecutablePhase.replacing)
    unfolding after_move
    moved-settled = record {
      bytes = there.bytes;
      at_path =
          else_at (λ e. ok.candidate_apart.not_path (sym e)) (λ e. ok.target_apart.not_path (sym e))
          ∙ there.at_path;
      parsed = there.parsed;
      tmp_plain =
          rw
            (else_at (λ e. ok.candidate_apart.not_tmp (sym e))
              (λ e. ok.target_apart.not_tmp (sym e)))
            there.tmp_plain;
      bak_plain =
          rw
            (else_at (λ e. ok.candidate_apart.not_bak (sym e))
              (λ e. ok.target_apart.not_bak (sym e)))
            there.bak_plain;
    }
      where
        else_at :
            {q : FilePath}
            → q ≢ candidate_of p
            → q ≢ target_of c
            → moved (candidate_of p) (target_of c) ok.new_bytes s q ≡ s q
        else_at {q} h k = moved_else (candidate_of p) (target_of c) ok.new_bytes s q h k

    moved-NewInPlace :
        OldInPlace host prefix metadata_file c p ok s
        → NewInPlace host prefix metadata_file c p ok after_move
    unfolding after_move
    moved-NewInPlace f = record {
      target = moved_to _ _ ok.new_bytes s;
      candidate = moved_from _ _ ok.new_bytes s (candidate-ne-target p);
      backup =
          moved_else _ _ ok.new_bytes s _ (backup-ne-candidate p) (backup-ne-target p) ∙ f.backup;
    }

    -- The rename, and the write behind it.
    pub replace_candidate-Runs :
        {quiet : Bool}
        → OldInPlace host prefix metadata_file c p ok s
        → Runs quiet s
            (replace_candidate host prefix metadata_file
              (pending_meta c PendingExecutablePhase.replacing))
            (λ o t.
              (o ≡ ExecutableUpdateOutcome.applied)
              × IsInstalled host prefix metadata_file c p ok t)
            (InProgress host prefix metadata_file c p ok)
    unfolding replace_candidate after_move
    replace_candidate-Runs f =
        let h = begun (inl there) f in
        step_reads _ _
          (direct-Reads host prefix metadata_file c p ok h PendingExecutablePhase.replacing)
          (step_from_option _ _ _ nothing_pending refl (
            step_reads _ _
              (candidate_path-Reads host prefix metadata_file c p ok h
                PendingExecutablePhase.replacing)
              (step_rename _ _ _ ok.new_bytes f.candidate (λ e. cc (e, f.target)) h
                (finish_new-Runs moved-settled (moved-NewInPlace f)))))

  -- The end of an approved update.
  abbrev pub Done : ExecutableUpdateOutcome → Files → Type 0
  Done o t = (o ≡ ExecutableUpdateOutcome.applied) × IsInstalled host prefix metadata_file c p ok t

  abbrev StartPhase : Files → PendingExecutablePhase → Type 0
  StartPhase s phase = RecordsSettled host prefix metadata_file c p ok s (pending_meta c phase)

  module _ {s : Files} where
    -- `apply_or_recover_locked` in each state that it can meet.
    pub apply_moved-Runs :
        {quiet : Bool}
        → StartPhase s PendingExecutablePhase.replacing
        → NewInPlace host prefix metadata_file c p ok s
        → Runs quiet s
            (apply_or_recover_locked host prefix metadata_file
              (pending_meta c PendingExecutablePhase.replacing))
            Done
            (InProgress host prefix metadata_file c p ok)
    unfolding apply_or_recover_locked apply_in_state
    apply_moved-Runs there f =
        let h = moved_over (inl there) f in
        let phase = PendingExecutablePhase.replacing in
        step_reads _ _ (direct-Reads host prefix metadata_file c p ok h phase) (
          step_from_option _ _ _ nothing_pending refl (
            step_reads _ _ (validate_pending_paths-Reads host prefix metadata_file c p ok h phase) (
              step_reads _ _ (classify_moved-Reads host prefix metadata_file c p ok h phase f)
                (finish_new-Runs there f))))

    pub apply_begun-Runs :
        {quiet : Bool}
        → StartPhase s PendingExecutablePhase.replacing
        → OldInPlace host prefix metadata_file c p ok s
        → Runs quiet s
            (apply_or_recover_locked host prefix metadata_file
              (pending_meta c PendingExecutablePhase.replacing))
            Done
            (InProgress host prefix metadata_file c p ok)
    unfolding apply_or_recover_locked apply_in_state
    apply_begun-Runs there f =
        let h = begun (inl there) f in
        let phase = PendingExecutablePhase.replacing in
        step_reads _ _ (direct-Reads host prefix metadata_file c p ok h phase) (
          step_from_option _ _ _ nothing_pending refl (
            step_reads _ _ (validate_pending_paths-Reads host prefix metadata_file c p ok h phase) (
              step_reads _ _ (classify_staged-Reads host prefix metadata_file c p ok h phase f)
                (replace_candidate-Runs there f))))

    pub apply_approved-Runs :
        {quiet : Bool}
        → StartPhase s PendingExecutablePhase.ready
        → OldInPlace host prefix metadata_file c p ok s
        → Runs quiet s
            (apply_or_recover_locked host prefix metadata_file
              (pending_meta c PendingExecutablePhase.ready))
            Done
            (InProgress host prefix metadata_file c p ok)
    unfolding apply_or_recover_locked apply_in_state set_phase
    apply_approved-Runs there f =
        let h = approved (inl there) f in
        let phase = PendingExecutablePhase.ready in
        step_reads _ _ (direct-Reads host prefix metadata_file c p ok h phase) (
          step_from_option _ _ _ nothing_pending refl (
            step_reads _ _ (validate_pending_paths-Reads host prefix metadata_file c p ok h phase) (
              step_reads _ _ (classify_staged-Reads host prefix metadata_file c p ok h phase f) (
                bind _
                  (weaken
                    (persist-Runs host prefix metadata_file c p ok _
                      (pending_meta c PendingExecutablePhase.replacing) ok.same_file there)
                    (λ _ t k. k)
                    (λ t (which, frame).
                      sort t (Frame-OldInPlace host prefix metadata_file c p ok s t frame f) which))
                  λ _ t (settled, frame).
                    replace_candidate-Runs settled
                      (Frame-OldInPlace host prefix metadata_file c p ok s t frame f)))))
      where
        sort :
            (t : Files)
            → OldInPlace host prefix metadata_file c p ok t
            → Records host prefix metadata_file c p ok t
                (pending_meta c PendingExecutablePhase.ready)
              ⊎ Records host prefix metadata_file c p ok t
                  (pending_meta c PendingExecutablePhase.replacing)
            → InProgress host prefix metadata_file c p ok t
        sort t f (inl r) = approved r f
        sort t f (inr r) = begun r f
