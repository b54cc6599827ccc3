-- ===== src/RuntimeUpdate/Helper.antt =====
-- The coordination of updates, for the action that applies one: `run_internal_helper` of
-- src/runtime_update.rs.
use conda_ship.Fs.FilePath.{FilePath}
use conda_ship.Fs.Failure.{
  not_configured, lock_not_held, nothing_staged, previous_restored, unexpected_outcome,
}
use conda_ship.Fs.Calls.{M, ◌>>=◌, ◌>>◌, return, fail, guard, from_option, touch}
use conda_ship.Config.Metadata.{PrefixMetadata, validate_metadata_ready_for}
use conda_ship.Config.Store.{read_metadata_for}
use conda_ship.ExecutableUpdate.Types.{
  Host, ExecutableUpdateOutcome, unneeded, staged, ready, applied, cleanup_pending,
  discarded_staged, restored_previous, reconciled,
}
use conda_ship.ExecutableUpdate.Candidate.{update_lock_is_held}
use conda_ship.ExecutableUpdate.Commands.{mark_pending_ready, apply_pending}

module _ (host : Host) (prefix : FilePath) where
  unfoldable pub require_update_lock : M (Unit {0})
  require_update_lock = do
    held ← update_lock_is_held host prefix host.current_header.metadata_file
    guard held lock_not_held

  unfoldable pub read_ready_metadata : M PrefixMetadata
  read_ready_metadata = do
    meta ← read_metadata_for host.json prefix host.current_header.metadata_file
    validate_metadata_ready_for meta host.current_header.runtime_name
        host.current_header.install_name host.current_header.metadata_file
    return meta

  -- Writing the response to the standard output can fail, and changes no file.
  unfoldable pub report_applied : ExecutableUpdateOutcome → M (Unit {0})
  report_applied applied = touch
  report_applied cleanup_pending = touch
  report_applied restored_previous = fail previous_restored
  report_applied unneeded = fail unexpected_outcome
  report_applied staged = fail unexpected_outcome
  report_applied ready = fail unexpected_outcome
  report_applied discarded_staged = fail unexpected_outcome
  report_applied reconciled = fail unexpected_outcome

  unfoldable pub apply_marked : ExecutableUpdateOutcome → M (Unit {0})
  apply_marked unneeded = fail nothing_staged
  apply_marked _ = do
    outcome ← apply_pending host prefix host.current_header.metadata_file
    report_applied outcome

  -- The arm of the action that applies an update.
  unfoldable pub apply_action : M (Unit {0})
  unfolding apply_marked report_applied
  apply_action = do
    marked ← mark_pending_ready host prefix host.current_header.metadata_file
    apply_marked marked

  -- The helper, with that action.
  unfoldable pub run_apply_helper : M (Unit {0})
  run_apply_helper = do
    _ ← from_option host.current_header.update not_configured
    require_update_lock
    _ ← read_ready_metadata
    apply_action
