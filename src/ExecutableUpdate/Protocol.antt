-- ===== src/ExecutableUpdate/Protocol.antt =====
-- The replacement itself: `apply_or_recover_locked`, `replace_candidate`, `finish_cleanup_locked`.
use conda_ship.Prelude.{Text, list_eq, number_eq, ◌⊎◌, inl, inr}
use conda_ship.Fs.FilePath.{FilePath, path_eq}
use conda_ship.Fs.Failure.{Failure, not_found, nothing_pending, unrecoverable}
use conda_ship.Fs.Calls.{M, ◌>>=◌, ◌>>◌, return, fail, from_option, attempt, rename, remove_file}
use conda_ship.Config.Store.{persist_metadata_for}
use conda_ship.Config.Metadata.{PendingExecutablePhase, PrefixMetadata}
use conda_ship.ExecutableUpdate.Types.{
  ExecutableUpdateOutcome, Host, FileVersion, absent, old, new, set_phase, clear_pending,
  commit_new_version,
}
use conda_ship.ExecutableUpdate.Stamp.{
  validate_pending_paths, candidate_path, backup_path, direct_update,
}
use conda_ship.ExecutableUpdate.Classify.{classify_files}

module _ (host : Host) (prefix : FilePath) (metadata_file : Text) where
  unfoldable pub finish_new : PrefixMetadata → M ExecutableUpdateOutcome
  finish_new meta = do
    persist_metadata_for host.json prefix metadata_file (clear_pending (commit_new_version meta))
    return ExecutableUpdateOutcome.applied

  unfoldable pub finish_old : PrefixMetadata → M ExecutableUpdateOutcome
  finish_old meta = do
    persist_metadata_for host.json prefix metadata_file (clear_pending meta)
    return ExecutableUpdateOutcome.restored_previous

  unfoldable pub replace_candidate : PrefixMetadata → M ExecutableUpdateOutcome
  replace_candidate meta = do
    update ← direct_update meta
    pending ← from_option update.pending nothing_pending
    candidate ← candidate_path update.executable pending.executable_sha256
    rename candidate update.executable
    finish_new meta

  -- The `match` of `apply_or_recover_locked` on the phase and the three files.
  unfoldable pub apply_in_state :
      PrefixMetadata
      → PendingExecutablePhase
      → FileVersion
      → FileVersion
      → FileVersion
      → M ExecutableUpdateOutcome
  apply_in_state meta PendingExecutablePhase.ready old new absent = do
    let replacing = set_phase meta PendingExecutablePhase.replacing
    persist_metadata_for host.json prefix metadata_file replacing
    replace_candidate replacing
  apply_in_state meta PendingExecutablePhase.replacing old new absent = replace_candidate meta
  apply_in_state meta PendingExecutablePhase.replacing new absent absent = finish_new meta
  apply_in_state meta PendingExecutablePhase.ready old absent absent = finish_old meta
  apply_in_state meta PendingExecutablePhase.replacing old absent absent = finish_old meta
  apply_in_state meta phase target candidate backup = fail unrecoverable

  unfoldable pub apply_or_recover_locked : PrefixMetadata → M ExecutableUpdateOutcome
  apply_or_recover_locked meta = do
    update ← direct_update meta
    pending ← from_option update.pending nothing_pending
    validate_pending_paths update pending
    files ← classify_files host meta update pending
    apply_in_state meta pending.phase files.target files.candidate files.backup

  after_removal : PrefixMetadata → Failure ⊎ Unit {0} → M ExecutableUpdateOutcome
  after_removal meta (inr _) = finish_new meta
  after_removal meta (inl not_found) = finish_new meta
  after_removal meta (inl _) = return ExecutableUpdateOutcome.cleanup_pending

  cleanup_in_state :
      PrefixMetadata
      → FilePath
      → FileVersion
      → FileVersion
      → FileVersion
      → M ExecutableUpdateOutcome
  cleanup_in_state meta backup new absent old = do
    removed ← attempt (remove_file backup)
    after_removal meta removed
  cleanup_in_state meta backup new absent absent = finish_new meta
  cleanup_in_state meta backup _ _ _ = fail unrecoverable

  unfoldable pub finish_cleanup_locked : PrefixMetadata → M ExecutableUpdateOutcome
  unfolding after_removal cleanup_in_state
  finish_cleanup_locked meta = do
    update ← direct_update meta
    pending ← from_option update.pending nothing_pending
    validate_pending_paths update pending
    files ← classify_files host meta update pending
    backup ← backup_path update.executable update.sha256
    cleanup_in_state meta backup files.target files.candidate files.backup
