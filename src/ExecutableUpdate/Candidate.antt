-- ===== src/ExecutableUpdate/Candidate.antt =====
-- Staging: `stage_candidate`, and the lock of the update coordinator, of src/executable_update.rs.
use conda_ship.Prelude.{
  ℕ, Bool, true, false, not, Option, none, some, Text, codes, ◌==◌, ◌!=◌, list_eq, number_eq,
  if◌then◌else◌, ◌⊎◌, inl, inr, is_some, ◌++◌, take, drop, length, ◌-◌, ltb, ◌&&◌,
}
use conda_ship.Fs.FilePath.{FilePath, join_text, path_eq}
use conda_ship.Fs.Failure.{
  Failure, already_pending, identical_executable, backup_exists, invalid_metadata_name,
}
use conda_ship.Fs.Calls.{
  M, ◌>>=◌, ◌>>◌, return, fail, guard, from_option, attempt, remove_file, touch, read_file,
}
use conda_ship.Config.Store.{persist_metadata_for}
use conda_ship.Config.Metadata.{
  PendingExecutablePhase, PendingExecutableUpdate, ExecutableUpdateMetadata, PrefixMetadata,
}
use conda_ship.ExecutableUpdate.Types.{ExecutableUpdateOutcome, Host, set_pending}
use conda_ship.ExecutableUpdate.Stamp.{
  acquire, regular_file_present, require_regular_file, candidate_path, backup_path, direct_update,
  sha256_hex, verify_stamped_file, read_owned_metadata,
}
use conda_ship.ExecutableUpdate.Staging.{stage_file}

-- `strip_suffix(".json")`, and the filter on what is left.
unfoldable pub lock_stem : Text → Option Text
lock_stem metadata_file =
    let stem = take (length metadata_file - 5) metadata_file in
    if (drop (length metadata_file - 5) metadata_file == codes ".json")
      && (take 1 stem == codes "." && ltb 1 (length stem))
    then some stem
    else none

module _ (host : Host) where
  unfoldable pub update_lock_is_held : FilePath → Text → M Bool
  unfolding lock_stem
  update_lock_is_held prefix metadata_file = do
    stem ← from_option (lock_stem metadata_file) invalid_metadata_name
    _ ← read_file (join_text prefix (stem ++ codes ".update.lock"))
    touch
    return host.update_lock_held

  -- The candidate that stands there already, if it is the wanted one.
  keep_or_stage : FilePath → FilePath → FilePath → Failure ⊎ Unit {0} → M Bool
  keep_or_stage source candidate target (inr _) = return false
  keep_or_stage source candidate target (inl _) = do
    remove_file candidate
    stage_file source candidate target

  discard_if : Bool → FilePath → M (Unit {0})
  discard_if false candidate = return tt
  discard_if true candidate = do _ ← attempt (remove_file candidate); return tt

  or_discard : Bool → FilePath → Failure ⊎ Unit {0} → M (Unit {0})
  or_discard created candidate (inr _) = return tt
  or_discard created candidate (inl error) = do discard_if created candidate; fail error

  place_candidate :
      PrefixMetadata → ExecutableUpdateMetadata → FilePath → FilePath → Text → Text → M Bool
  place_candidate meta update source candidate version new_sha256 = do
    present ← regular_file_present candidate
    elim present [
      | true ↦ (do
        verified ← attempt (verify_stamped_file host meta update candidate version new_sha256)
        keep_or_stage source candidate update.executable verified)
      | false ↦ stage_file source candidate update.executable
    ]

  record_candidate :
      FilePath
      → Text
      → PrefixMetadata
      → FilePath
      → Bool
      → PendingExecutableUpdate
      → M ExecutableUpdateOutcome
  record_candidate prefix metadata_file meta candidate created pending = do
    persisted ←
        attempt (persist_metadata_for host.json prefix metadata_file (set_pending meta pending))
    or_discard created candidate persisted
    return ExecutableUpdateOutcome.staged

  unfoldable pub stage_candidate : FilePath → Text → FilePath → Text → ℕ → M ExecutableUpdateOutcome
  unfolding place_candidate keep_or_stage or_discard discard_if record_candidate
  stage_candidate prefix metadata_file source version build_number = do
    acquire prefix
    meta ← read_owned_metadata host prefix metadata_file
    update ← direct_update meta
    guard (not (is_some update.pending)) already_pending
    require_regular_file source
    require_regular_file update.executable
    verify_stamped_file host meta update update.executable meta.version update.sha256
    new_sha256 ← sha256_hex host source
    verify_stamped_file host meta update source version new_sha256
    guard (new_sha256 != update.sha256) identical_executable
    candidate ← candidate_path update.executable new_sha256
    backup ← backup_path update.executable update.sha256
    kept ← regular_file_present backup
    guard (not kept) backup_exists
    created ← place_candidate meta update source candidate version new_sha256
    verified ← attempt (verify_stamped_file host meta update candidate version new_sha256)
    or_discard created candidate verified
    record_candidate prefix metadata_file meta candidate created (record {
      phase = PendingExecutablePhase.staged;
      version = version;
      build_number = build_number;
      executable_sha256 = new_sha256;
    })
