-- ===== src/ExecutableUpdate/Steps.antt =====
-- The parts of an update, run on files in one of the states of `InProgress`.
use conda_ship.Prelude.{Bool, some, Text, ◌≡◌, ◌⊎◌, refl, ◌∙◌, ==-refl, list_eq, number_eq, codes}
use conda_ship.Fs.FilePath.{FilePath}
use conda_ship.Fs.Calls.{Files}
use conda_ship.Fs.Triple.{Runs, return-Runs}
use conda_ship.Fs.Reads.{Reads, step_reads, step_guard}
use conda_ship.Config.Holds.{Frame}
use conda_ship.Config.Store.{
  persist_metadata_for, metadata_path_for, temporary_metadata_path_for, backup_metadata_path_for,
}
use conda_ship.Config.Persist.{persist_at-Runs}
use conda_ship.Config.Metadata.{PendingExecutablePhase, ExecutableUpdateMetadata, PrefixMetadata}
use conda_ship.ExecutableUpdate.Types.{Host, absent, old, new}
use conda_ship.ExecutableUpdate.Stamp.{
  direct_update, candidate_path, backup_path, validate_pending_paths, stamp_matches,
  validate_sha256,
}
use conda_ship.ExecutableUpdate.Classify.{classify_files}
use conda_ship.ExecutableUpdate.Facts.{
  Verified, adjacent-Reads, direct_update-Reads, target_old-Reads, target_new-Reads,
  role_present-Reads, role_absent-Reads,
}
use conda_ship.ExecutableUpdate.Setting.{
  Selection, pending_at, update_with, pending_meta, Places, target_of, candidate_of, backup_of,
  IsSound, Records, RecordsSettled, OldInPlace, NewInPlace,
}

module _ (host : Host) (prefix : FilePath) (metadata_file : Text) (c : Selection)
    (p : Places prefix metadata_file c) (ok : IsSound host prefix metadata_file c p) where
  abbrev pub InFrame : Files → Files → Type 0
  InFrame =
      Frame (metadata_path_for prefix metadata_file)
        (temporary_metadata_path_for prefix metadata_file)
        (backup_metadata_path_for prefix metadata_file)

  -- Writes of the metadata leave the executable's files alone.
  pub Frame-OldInPlace :
      (s t : Files)
      → InFrame s t
      → OldInPlace host prefix metadata_file c p ok s
      → OldInPlace host prefix metadata_file c p ok t
  Frame-OldInPlace s t frame h = record {
    target =
        frame _ ok.target_apart.not_path ok.target_apart.not_tmp ok.target_apart.not_bak ∙ h.target;
    candidate =
        frame _ ok.candidate_apart.not_path ok.candidate_apart.not_tmp ok.candidate_apart.not_bak
        ∙ h.candidate;
    backup =
        frame _ ok.backup_apart.not_path ok.backup_apart.not_tmp ok.backup_apart.not_bak ∙ h.backup;
  }

  pub Frame-NewInPlace :
      (s t : Files)
      → InFrame s t
      → NewInPlace host prefix metadata_file c p ok s
      → NewInPlace host prefix metadata_file c p ok t
  Frame-NewInPlace s t frame h = record {
    target =
        frame _ ok.target_apart.not_path ok.target_apart.not_tmp ok.target_apart.not_bak ∙ h.target;
    candidate =
        frame _ ok.candidate_apart.not_path ok.candidate_apart.not_tmp ok.candidate_apart.not_bak
        ∙ h.candidate;
    backup =
        frame _ ok.backup_apart.not_path ok.backup_apart.not_tmp ok.backup_apart.not_bak ∙ h.backup;
  }

  -- `persist_metadata_for`, for metadata that names its own file.
  pub persist-Runs :
      {quiet : Bool} {s : Files} (before after : PrefixMetadata)
      → after.metadata_file ≡ metadata_file
      → RecordsSettled host prefix metadata_file c p ok s before
      → Runs quiet s
          (persist_metadata_for host.json prefix metadata_file after)
          (λ _ t. RecordsSettled host prefix metadata_file c p ok t after × InFrame s t)
          (λ t.
            (Records host prefix metadata_file c p ok t before
              ⊎ Records host prefix metadata_file c p ok t after)
            × InFrame s t)
  unfolding persist_metadata_for
  persist-Runs before after named was =
      step_guard _ _ _ (rw named (==-refl metadata_file))
        (persist_at-Runs host.json _ _ _ p.distinct _ before after was)

  module _ (phase : PendingExecutablePhase) where
    abbrev pub u : ExecutableUpdateMetadata
    u = update_with c (some (pending_at c phase))

    pub old_here :
        Verified host (pending_meta c phase) u ok.old_bytes c.base.version c.installed.sha256
    unfolding stamp_matches
    old_here =
        let v = ok.old_verified in
        record {
          hashed = v.hashed;
          valid = v.valid;
          header = v.header;
          bundle = v.bundle;
          read = v.read;
          matched = v.matched;
          bundle_whole = v.bundle_whole;
        }

    new_here : Verified host (pending_meta c phase) u ok.new_bytes c.version c.digest
    unfolding stamp_matches
    new_here =
        let v = ok.new_verified in
        record {
          hashed = v.hashed;
          valid = v.valid;
          header = v.header;
          bundle = v.bundle;
          read = v.read;
          matched = v.matched;
          bundle_whole = v.bundle_whole;
        }

  module _ {quiet : Bool} {s : Files} {E : Files → Type 0} (h : E s)
      (phase : PendingExecutablePhase) where
    pub direct-Reads : Reads quiet s E (direct_update (pending_meta c phase)) (u phase)
    direct-Reads =
        direct_update-Reads h (pending_meta c phase) (u phase) refl ok.owned ok.absolute ok.complete
          ok.old_verified.valid

    pub candidate_path-Reads :
        Reads quiet s E (candidate_path (target_of c) c.digest) (candidate_of p)
    unfolding candidate_path
    candidate_path-Reads =
        adjacent-Reads h (target_of c) p.directory p.name c.digest (codes "new")
          ok.new_verified.valid p.above p.named

    pub backup_path-Reads :
        Reads quiet s E (backup_path (target_of c) c.installed.sha256) (backup_of p)
    unfolding backup_path
    backup_path-Reads =
        adjacent-Reads h (target_of c) p.directory p.name c.installed.sha256 (codes "old")
          ok.old_verified.valid p.above p.named

    pub validate_pending_paths-Reads :
        Reads quiet s E (validate_pending_paths (u phase) (pending_at c phase)) tt
    unfolding validate_pending_paths validate_sha256
    validate_pending_paths-Reads = step_guard _ _ _ ok.old_verified.valid (
        step_guard _ _ _ ok.new_verified.valid (
          step_reads _ (candidate_of p) candidate_path-Reads
            (step_reads _ (backup_of p) backup_path-Reads (return-Runs tt (refl, refl)))))

    pub classify_staged-Reads :
        OldInPlace host prefix metadata_file c p ok s
        → Reads quiet s E
            (classify_files host (pending_meta c phase) (u phase) (pending_at c phase))
            (record { target = old; candidate = new; backup = absent })
    unfolding classify_files
    classify_staged-Reads f =
        step_reads _ old
          (target_old-Reads host h (pending_meta c phase) (u phase) (pending_at c phase)
            ok.old_bytes f.target (old_here phase))
          (step_reads _ (candidate_of p) candidate_path-Reads (
            step_reads _ new
              (role_present-Reads host h (pending_meta c phase) (u phase) (pending_at c phase) _
                ok.new_bytes _ _ new f.candidate (new_here phase))
              (step_reads _ (backup_of p) backup_path-Reads (
                step_reads _ absent
                  (role_absent-Reads host h (pending_meta c phase) (u phase) (pending_at c phase) _
                    _ _ old f.backup)
                  (return-Runs _ (refl, refl))))))

    pub classify_moved-Reads :
        NewInPlace host prefix metadata_file c p ok s
        → Reads quiet s E
            (classify_files host (pending_meta c phase) (u phase) (pending_at c phase))
            (record { target = new; candidate = absent; backup = absent })
    unfolding classify_files
    classify_moved-Reads f =
        step_reads _ new
          (target_new-Reads host h (pending_meta c phase) (u phase) (pending_at c phase)
            ok.new_bytes f.target (new_here phase) ok.differ)
          (step_reads _ (candidate_of p) candidate_path-Reads (
            step_reads _ absent
              (role_absent-Reads host h (pending_meta c phase) (u phase) (pending_at c phase) _ _ _
                new f.candidate)
              (step_reads _ (backup_of p) backup_path-Reads (
                step_reads _ absent
                  (role_absent-Reads host h (pending_meta c phase) (u phase) (pending_at c phase) _
                    _ _ old f.backup)
                  (return-Runs _ (refl, refl))))))
