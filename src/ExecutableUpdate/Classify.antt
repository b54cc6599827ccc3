-- ===== src/ExecutableUpdate/Classify.antt =====
-- Which version of the executable stands under each of the three names.
use conda_ship.Prelude.{true, false, Text, ◌==◌, list_eq, number_eq, if◌then◌else◌}
use conda_ship.Fs.FilePath.{FilePath}
use conda_ship.Fs.Failure.{neither_digest}
use conda_ship.Fs.Calls.{M, ◌>>=◌, ◌>>◌, return, fail}
use conda_ship.Config.Metadata.{PendingExecutableUpdate, ExecutableUpdateMetadata, PrefixMetadata}
use conda_ship.ExecutableUpdate.Types.{Host, FileVersion, absent, old, new, FileState}
use conda_ship.ExecutableUpdate.Stamp.{
  regular_file_present, sha256_hex, verify_stamped_file, candidate_path, backup_path,
}

module _ (host : Host) where
  classify_present :
      PrefixMetadata → ExecutableUpdateMetadata → PendingExecutableUpdate → Text → M FileVersion
  classify_present meta update pending digest =
      if digest == update.sha256
      then (do
        verify_stamped_file host meta update update.executable meta.version update.sha256
        return old)
      else if digest == pending.executable_sha256
      then (do
        verify_stamped_file host meta update update.executable pending.version
            pending.executable_sha256
        return new)
      else fail neither_digest

  unfoldable pub classify_target :
      PrefixMetadata → ExecutableUpdateMetadata → PendingExecutableUpdate → M FileVersion
  unfolding classify_present
  classify_target meta update pending = do
    present ← regular_file_present update.executable
    elim present [
      | true ↦ (do
        digest ← sha256_hex host update.executable
        classify_present meta update pending digest)
      | false ↦ return absent
    ]

  unfoldable pub classify_role_file :
      PrefixMetadata
      → ExecutableUpdateMetadata
      → FilePath
      → Text
      → Text
      → FileVersion
      → M FileVersion
  classify_role_file meta update path version digest present = do
    found ← regular_file_present path
    elim found [
      | true ↦ (do verify_stamped_file host meta update path version digest; return present)
      | false ↦ return absent
    ]

  unfoldable pub classify_files :
      PrefixMetadata → ExecutableUpdateMetadata → PendingExecutableUpdate → M FileState
  classify_files meta update pending = do
    target ← classify_target meta update pending
    at_candidate ← candidate_path update.executable pending.executable_sha256
    candidate ←
        classify_role_file meta update at_candidate pending.version pending.executable_sha256 new
    at_backup ← backup_path update.executable update.sha256
    backup ← classify_role_file meta update at_backup meta.version update.sha256 old
    return (record { target = target; candidate = candidate; backup = backup })
