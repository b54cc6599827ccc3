-- ===== src/ExecutableUpdate/Discard.antt =====
-- `discard_unapproved` of src/executable_update.rs: a staged update that nobody approved is dropped.
use conda_ship.Prelude.{Bool, false, Text, ◌≡◌, ◌⊎◌, inl, inr, refl, sym, ◌∙◌}
use conda_ship.Fs.FilePath.{FilePath}
use conda_ship.Fs.Calls.{Files, missing, file, ◌>>◌, return, put, put_self, put_ne}
use conda_ship.Config.Store.{persist_metadata_for}
use conda_ship.Fs.Triple.{Runs, bind, weaken, return-Runs, step_remove_file, step_return}
use conda_ship.Fs.Reads.{Reads, step_reads}
use conda_ship.Config.Metadata.{PendingExecutablePhase}
use conda_ship.ExecutableUpdate.Types.{
  ExecutableUpdateOutcome, Host, clear_pending, absent, old, new,
}
use conda_ship.ExecutableUpdate.Facts.{acquire-Reads, target_old-Reads, role_absent-Reads}
use conda_ship.ExecutableUpdate.Classify.{classify_files}
use conda_ship.ExecutableUpdate.Setting.{
  Selection, idle, pending_at, pending_meta, Places, target_of, candidate_of, backup_of, IsSound,
  Records, RecordsSettled, OldInPlace,
}
use conda_ship.ExecutableUpdate.Names.{candidate-ne-target, backup-ne-candidate}
use conda_ship.ExecutableUpdate.Steps.{
  InFrame, Frame-OldInPlace, persist-Runs, direct-Reads, candidate_path-Reads, backup_path-Reads,
  validate_pending_paths-Reads, classify_staged-Reads, u, old_here,
}
use conda_ship.ExecutableUpdate.Recover.{validate_current_metadata-Reads, read-Runs}
use conda_ship.ExecutableUpdate.Commands.{discard_unapproved, recover_pending_with}

module _ (host : Host) (prefix : FilePath) (metadata_file : Text) (c : Selection)
    (p : Places prefix metadata_file c) (ok : IsSound host prefix metadata_file c p) where
  -- The old executable alone.
  pub record OldAlone (s : Files) : Type 0 where
    pub target : s (target_of c) ≡ file ok.old_bytes
    pub candidate : s (candidate_of p) ≡ missing
    pub backup : s (backup_of p) ≡ missing

  -- An update that is not approved: staged, with its candidate removed, and forgotten.
  pub data Unapproved (s : Files) : Type 0 where
    staged :
        Records host prefix metadata_file c p ok s (pending_meta c PendingExecutablePhase.staged)
        → OldInPlace host prefix metadata_file c p ok s
        → Unapproved s
    dropped :
        Records host prefix metadata_file c p ok s (pending_meta c PendingExecutablePhase.staged)
        → OldAlone s
        → Unapproved s
    forgotten : Records host prefix metadata_file c p ok s (idle c) → OldAlone s → Unapproved s

  -- Nothing is pending, and the old executable stands alone.
  pub record IsIdle (s : Files) : Type 0 where
    pub recorded : RecordsSettled host prefix metadata_file c p ok s (idle c)
    pub files : OldAlone s

  Frame-OldAlone :
      (s t : Files) → InFrame host prefix metadata_file c p ok s t → OldAlone s → OldAlone t
  Frame-OldAlone s t frame h = record {
    target =
        frame _ ok.target_apart.not_path ok.target_apart.not_tmp ok.target_apart.not_bak ∙ h.target;
    candidate =
        frame _ ok.candidate_apart.not_path ok.candidate_apart.not_tmp ok.candidate_apart.not_bak
        ∙ h.candidate;
    backup =
        frame _ ok.backup_apart.not_path ok.backup_apart.not_tmp ok.backup_apart.not_bak ∙ h.backup;
  }

  abbrev phase : PendingExecutablePhase
  phase = PendingExecutablePhase.staged

  module _ {s : Files}
      (there : RecordsSettled host prefix metadata_file c p ok s (pending_meta c phase))
      (f : OldInPlace host prefix metadata_file c p ok s) where
    abbrev removed : Files
    removed = put (candidate_of p) missing s

    removed-OldAlone : OldAlone removed
    removed-OldAlone = record {
      target = put_ne missing s _ (target_of c) (λ e. candidate-ne-target p (sym e)) ∙ f.target;
      candidate = put_self missing s (candidate_of p);
      backup = put_ne missing s _ (backup_of p) (backup-ne-candidate p) ∙ f.backup;
    }

    removed-settled : RecordsSettled host prefix metadata_file c p ok removed (pending_meta c phase)
    removed-settled = record {
      bytes = there.bytes;
      at_path = put_ne missing s _ _ (λ e. ok.candidate_apart.not_path (sym e)) ∙ there.at_path;
      parsed = there.parsed;
      tmp_plain =
          rw (put_ne missing s (candidate_of p) _ (λ e. ok.candidate_apart.not_tmp (sym e)))
            there.tmp_plain;
      bak_plain =
          rw (put_ne missing s (candidate_of p) _ (λ e. ok.candidate_apart.not_bak (sym e)))
            there.bak_plain;
    }

  abbrev pub Dropped : {s : Files} → Unapproved s → ExecutableUpdateOutcome
  Dropped (staged _ _) = ExecutableUpdateOutcome.discarded_staged
  Dropped (dropped _ _) = ExecutableUpdateOutcome.discarded_staged
  Dropped (forgotten _ _) = ExecutableUpdateOutcome.unneeded

  module _ {quiet : Bool} {s : Files} where
    classify_dropped-Reads :
        {E : Files → Type 0}
        → E s
        → OldAlone s
        → Reads quiet s E
            (classify_files host
              (pending_meta c phase)
              (u host prefix metadata_file c p ok phase)
              (pending_at c phase))
            (record { target = old; candidate = absent; backup = absent })
    unfolding classify_files
    classify_dropped-Reads h f =
        step_reads _ old
          (target_old-Reads host h (pending_meta c phase) (u host prefix metadata_file c p ok phase)
            (pending_at c phase) ok.old_bytes f.target
            (old_here host prefix metadata_file c p ok phase))
          (step_reads _ (candidate_of p)
            (candidate_path-Reads host prefix metadata_file c p ok h phase)
            (step_reads _ absent
              (role_absent-Reads host h (pending_meta c phase)
                (u host prefix metadata_file c p ok phase) (pending_at c phase) _ _ _ new
                f.candidate)
              (step_reads _ (backup_of p)
                (backup_path-Reads host prefix metadata_file c p ok h phase)
                (step_reads _ absent
                  (role_absent-Reads host h (pending_meta c phase)
                    (u host prefix metadata_file c p ok phase) (pending_at c phase) _ _ _ old
                    f.backup)
                  (return-Runs _ (refl, refl))))))

    forget-Runs :
        RecordsSettled host prefix metadata_file c p ok s (pending_meta c phase)
        → OldAlone s
        → Runs quiet s
            (persist_metadata_for host.json prefix metadata_file (idle c)
              >> return ExecutableUpdateOutcome.discarded_staged)
            (λ o t. (o ≡ ExecutableUpdateOutcome.discarded_staged) × IsIdle t)
            Unapproved
    forget-Runs there f =
        bind _
          (weaken (persist-Runs host prefix metadata_file c p ok _ (idle c) ok.same_file there)
            (λ _ t k. k) (λ t (which, frame). sort t (Frame-OldAlone s t frame f) which))
          λ _ t (recorded, frame).
            return-Runs _ (refl, record { recorded = recorded; files = Frame-OldAlone s t frame f })
      where
        sort :
            (t : Files)
            → OldAlone t
            → Records host prefix metadata_file c p ok t (pending_meta c phase)
              ⊎ Records host prefix metadata_file c p ok t (idle c)
            → Unapproved t
        sort t f (inl r) = dropped r f
        sort t f (inr r) = forgotten r f

  module _ {quiet : Bool} {s : Files} where
    -- `discard_unapproved`, from a staged update or from what an interrupted discarding of it left:
    -- an undisturbed run succeeds, with nothing pending, the candidate gone and the old executable
    -- in place; a run that fails or stops at any call leaves the old executable in place, and a
    -- state from which the update can be discarded.
    pub discard_unapproved-Runs :
        (h : Unapproved s)
        → Runs quiet s
            (discard_unapproved host prefix metadata_file)
            (λ o t. (o ≡ Dropped h) × IsIdle t)
            Unapproved
    unfolding discard_unapproved recover_pending_with clear_pending
    discard_unapproved-Runs (staged r f) =
        step_reads _ tt (acquire-Reads (staged r f) prefix _ _ p.prefix_above p.prefix_named) (
          bind _
            (read-Runs host prefix metadata_file c p ok _ r λ t still frame.
              staged still (Frame-OldInPlace host prefix metadata_file c p ok s t frame f))
            λ m t (same, there, frame).
              let g = Frame-OldInPlace host prefix metadata_file c p ok s t frame f in
              let h = staged (inl there) g in
              rw same (
                step_reads _ tt
                  (validate_current_metadata-Reads host prefix metadata_file c p ok _ refl refl refl
                    refl refl)
                  (step_reads _ _ (direct-Reads host prefix metadata_file c p ok h phase) (
                    step_reads _ _
                      (validate_pending_paths-Reads host prefix metadata_file c p ok h phase)
                      (step_reads _ _
                        (classify_staged-Reads host prefix metadata_file c p ok h phase g)
                        (step_reads _ _
                          (candidate_path-Reads host prefix metadata_file c p ok h phase)
                          (step_return false _ (
                            step_remove_file _ _ ok.new_bytes g.candidate h (
                              forget-Runs (removed-settled there g)
                                (removed-OldAlone there g))))))))))
    discard_unapproved-Runs (dropped r f) =
        step_reads _ tt (acquire-Reads (dropped r f) prefix _ _ p.prefix_above p.prefix_named) (
          bind _
            (read-Runs host prefix metadata_file c p ok _ r
              λ t still frame. dropped still (Frame-OldAlone s t frame f))
            λ m t (same, there, frame).
              let g = Frame-OldAlone s t frame f in
              let h = dropped (inl there) g in
              rw same (
                step_reads _ tt
                  (validate_current_metadata-Reads host prefix metadata_file c p ok _ refl refl refl
                    refl refl)
                  (step_reads _ _ (direct-Reads host prefix metadata_file c p ok h phase) (
                    step_reads _ _
                      (validate_pending_paths-Reads host prefix metadata_file c p ok h phase)
                      (step_reads _ _ (classify_dropped-Reads h g) (
                        step_reads _ _
                          (candidate_path-Reads host prefix metadata_file c p ok h phase)
                          (forget-Runs there g)))))))
    discard_unapproved-Runs (forgotten r f) =
        step_reads _ tt (acquire-Reads (forgotten r f) prefix _ _ p.prefix_above p.prefix_named) (
          bind _
            (read-Runs host prefix metadata_file c p ok _ r
              λ t still frame. forgotten still (Frame-OldAlone s t frame f))
            λ m t (same, there, frame). rw same (
              step_reads _ tt
                (validate_current_metadata-Reads host prefix metadata_file c p ok _ refl refl refl
                  refl refl)
                (return-Runs ExecutableUpdateOutcome.unneeded
                  (refl, record { recorded = there; files = Frame-OldAlone s t frame f }))))
