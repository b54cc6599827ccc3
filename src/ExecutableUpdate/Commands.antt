-- ===== src/ExecutableUpdate/Commands.antt =====
-- Approving, applying, recovering and discarding: `mark_pending_ready`, `apply_pending`,
-- `recover_pending` and `discard_unapproved` of src/executable_update.rs.
use conda_ship.Prelude.{Bool, true, false, Option, none, some, Text, list_eq, number_eq}
use conda_ship.Fs.FilePath.{FilePath, path_eq}
use conda_ship.Fs.Failure.{not_approved, unrecoverable}
use conda_ship.Fs.Calls.{M, ◌>>=◌, ◌>>◌, return, fail, remove_file}
use conda_ship.Config.Store.{persist_metadata_for, read_metadata_for}
use conda_ship.Config.Metadata.{
  PendingExecutablePhase, PendingExecutableUpdate, ExecutableUpdateMetadata, PrefixMetadata,
}
use conda_ship.ExecutableUpdate.Types.{
  ExecutableUpdateOutcome, Host, FileVersion, absent, old, new, set_phase, clear_pending,
}
use conda_ship.ExecutableUpdate.Stamp.{
  acquire, validate_pending_paths, candidate_path, direct_update, validate_current_metadata,
  read_owned_metadata,
}
use conda_ship.ExecutableUpdate.Classify.{classify_files}
use conda_ship.ExecutableUpdate.Protocol.{apply_or_recover_locked, finish_cleanup_locked}
use conda_ship.ExecutableUpdate.Candidate.{update_lock_is_held}

module _ (host : Host) where
  module _ (prefix : FilePath) (metadata_file : Text) where
    approve_in_state :
        PrefixMetadata → FileVersion → FileVersion → FileVersion → M ExecutableUpdateOutcome
    approve_in_state meta old new absent = do
      persist_metadata_for host.json prefix metadata_file
          (set_phase meta PendingExecutablePhase.ready)
      return ExecutableUpdateOutcome.ready
    approve_in_state meta _ _ _ = fail unrecoverable

    approve_in_phase :
        PrefixMetadata
        → ExecutableUpdateMetadata
        → PendingExecutableUpdate
        → PendingExecutablePhase
        → M ExecutableUpdateOutcome
    approve_in_phase meta update pending PendingExecutablePhase.staged = do
      files ← classify_files host meta update pending
      approve_in_state meta files.target files.candidate files.backup
    approve_in_phase meta update pending PendingExecutablePhase.ready =
        return ExecutableUpdateOutcome.ready
    approve_in_phase meta update pending _ = fail not_approved

    approve :
        PrefixMetadata
        → ExecutableUpdateMetadata
        → Option PendingExecutableUpdate
        → M ExecutableUpdateOutcome
    approve meta update none = return ExecutableUpdateOutcome.unneeded
    approve meta update (some pending) = do
      validate_pending_paths update pending
      approve_in_phase meta update pending pending.phase

    unfoldable pub mark_pending_ready : M ExecutableUpdateOutcome
    unfolding approve approve_in_phase approve_in_state
    mark_pending_ready = do
      acquire prefix
      meta ← read_owned_metadata host prefix metadata_file
      update ← direct_update meta
      approve meta update update.pending

    apply_in_phase : PrefixMetadata → PendingExecutablePhase → M ExecutableUpdateOutcome
    apply_in_phase meta PendingExecutablePhase.ready =
        apply_or_recover_locked host prefix metadata_file meta
    apply_in_phase meta PendingExecutablePhase.replacing =
        apply_or_recover_locked host prefix metadata_file meta
    apply_in_phase meta PendingExecutablePhase.cleanup =
        finish_cleanup_locked host prefix metadata_file meta
    apply_in_phase meta PendingExecutablePhase.staged = fail not_approved

    apply : PrefixMetadata → Option PendingExecutableUpdate → M ExecutableUpdateOutcome
    apply meta none = return ExecutableUpdateOutcome.unneeded
    apply meta (some pending) = apply_in_phase meta pending.phase

    unfoldable pub apply_pending : M ExecutableUpdateOutcome
    unfolding apply apply_in_phase
    apply_pending = do
      acquire prefix
      meta ← read_owned_metadata host prefix metadata_file
      update ← direct_update meta
      apply meta update.pending

    forget_pending : PrefixMetadata → M ExecutableUpdateOutcome
    forget_pending meta = do
      persist_metadata_for host.json prefix metadata_file (clear_pending meta)
      return ExecutableUpdateOutcome.discarded_staged

    drop_candidate : PrefixMetadata → FilePath → Bool → M ExecutableUpdateOutcome
    drop_candidate meta candidate true = return ExecutableUpdateOutcome.staged
    drop_candidate meta candidate false = do remove_file candidate; forget_pending meta

    -- `!discard_staged && update_lock_is_held(…)?`
    wait_for_caller : Bool → M Bool
    wait_for_caller true = return false
    wait_for_caller false = update_lock_is_held host prefix metadata_file

    discard_in_state :
        PrefixMetadata
        → Bool
        → FilePath
        → FileVersion
        → FileVersion
        → FileVersion
        → M ExecutableUpdateOutcome
    discard_in_state meta discard_staged candidate old new absent = do
      held ← wait_for_caller discard_staged
      drop_candidate meta candidate held
    discard_in_state meta discard_staged candidate old absent absent = forget_pending meta
    discard_in_state meta discard_staged candidate _ _ _ = fail unrecoverable

    discard : Bool → PrefixMetadata → PendingExecutableUpdate → M ExecutableUpdateOutcome
    discard discard_staged meta pending = do
      update ← direct_update meta
      validate_pending_paths update pending
      files ← classify_files host meta update pending
      candidate ← candidate_path update.executable pending.executable_sha256
      discard_in_state meta discard_staged candidate files.target files.candidate files.backup

    recover_in_phase :
        Bool
        → PrefixMetadata
        → PendingExecutableUpdate
        → PendingExecutablePhase
        → M ExecutableUpdateOutcome
    recover_in_phase discard_staged meta pending PendingExecutablePhase.staged =
        discard discard_staged meta pending
    recover_in_phase discard_staged meta pending PendingExecutablePhase.ready =
        apply_or_recover_locked host prefix metadata_file meta
    recover_in_phase discard_staged meta pending PendingExecutablePhase.replacing =
        apply_or_recover_locked host prefix metadata_file meta
    recover_in_phase discard_staged meta pending PendingExecutablePhase.cleanup =
        finish_cleanup_locked host prefix metadata_file meta

    recover : Bool → PrefixMetadata → Option ExecutableUpdateMetadata → M ExecutableUpdateOutcome
    recover discard_staged meta none = return ExecutableUpdateOutcome.unneeded
    recover discard_staged meta (some update) = elim update.pending [
      | none ↦ return ExecutableUpdateOutcome.unneeded
      | some pending ↦ recover_in_phase discard_staged meta pending pending.phase
    ]

    unfoldable pub recover_pending_with : Bool → M ExecutableUpdateOutcome
    unfolding recover recover_in_phase discard discard_in_state wait_for_caller drop_candidate
        forget_pending
    recover_pending_with discard_staged = do
      acquire prefix
      meta ← read_metadata_for host.json prefix metadata_file
      validate_current_metadata host meta metadata_file
      recover discard_staged meta meta.update

    unfoldable pub recover_pending : M ExecutableUpdateOutcome
    recover_pending = recover_pending_with false

    unfoldable pub discard_unapproved : M ExecutableUpdateOutcome
    discard_unapproved = recover_pending_with true
