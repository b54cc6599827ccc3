-- ===== src/ExecutableUpdate/Stamp.antt =====
-- The checks on one file of an update, and the names of the files beside the executable.
use conda_ship.Prelude.{
  Bool, true, false, not, ◌&&◌, ◌||◌, Option, none, some, ◌∷◌, ◌++◌, Text, codes, take, ◌==◌,
  list_eq, number_eq, is_empty, if◌then◌else◌,
}
use conda_ship.Hash.{hex, is_sha256}
use conda_ship.Fs.FilePath.{FilePath, join, parent, file_name}
use conda_ship.Fs.Failure.{
  not_regular, not_found, no_parent, no_file_name, invalid_digest, digest_mismatch, not_stamped,
  stamp_mismatch, stamp_unreadable, bundle_corrupt, not_configured, externally_managed,
  not_absolute, incomplete_metadata,
}
use conda_ship.Fs.Calls.{
  M, ◌>>=◌, ◌>>◌, return, fail, guard, from_option, is_regular, symlink_metadata, read_file, touch,
}
use conda_ship.RuntimeData.Header.{
  RuntimeDataHeader, RuntimeUpdateConfig, UpdateOwnership, direct, external,
}
use conda_ship.Config.Store.{read_metadata_for}
use conda_ship.Config.Metadata.{
  PendingExecutableUpdate, ExecutableUpdateMetadata, PrefixMetadata, validate_metadata_ready_for,
}
use conda_ship.ExecutableUpdate.Types.{Host, Stamp, unreadable, unstamped, stamped}

unfoldable pub validate_sha256 : Text → M (Unit {0})
validate_sha256 value = guard (is_sha256 value) invalid_digest

unfoldable pub require_regular_file : FilePath → M (Unit {0})
require_regular_file path = do
  found ← symlink_metadata path
  elim found [ none ↦ fail not_found | some k ↦ guard (is_regular k) not_regular ]

unfoldable pub regular_file_present : FilePath → M Bool
regular_file_present path = do
  found ← symlink_metadata path
  elim found [
    | none ↦ return false
    | some k ↦ if is_regular k then return true else fail not_regular
  ]

-- `.{name}.conda-ship-{digest[..16]}.{suffix}`
unfoldable pub adjacent_name : Text → Text → Text → Text
adjacent_name name digest suffix =
    b'.' ∷ (name ++ (codes ".conda-ship-" ++ (take 16 digest ++ (b'.' ∷ suffix))))

unfoldable pub adjacent_update_path : FilePath → Text → Text → M FilePath
adjacent_update_path target digest suffix = do
  validate_sha256 digest
  directory ← from_option (parent target) no_parent
  name ← from_option (file_name target) no_file_name
  return (join directory (adjacent_name name digest suffix))

unfoldable pub candidate_path : FilePath → Text → M FilePath
candidate_path target digest = adjacent_update_path target digest (codes "new")

unfoldable pub backup_path : FilePath → Text → M FilePath
backup_path target digest = adjacent_update_path target digest (codes "old")

unfoldable pub validate_pending_paths :
    ExecutableUpdateMetadata → PendingExecutableUpdate → M (Unit {0})
validate_pending_paths update pending = do
  validate_sha256 update.sha256
  validate_sha256 pending.executable_sha256
  _ ← candidate_path update.executable pending.executable_sha256
  _ ← backup_path update.executable update.sha256
  return tt

-- `path` of src/bootstrap_lock.rs; the text of the name is not used further.
unfoldable pub lock_path : FilePath → M FilePath
lock_path prefix = do
  directory ← from_option (parent prefix) no_parent
  name ← from_option (file_name prefix) no_file_name
  return (join directory (b'.' ∷ (name ++ codes ".conda-ship.lock")))

-- `BootstrapLock::acquire`: create the directory, open the file, lock it. The lock file is kept out
-- of the modelled files, since no component reads it.
unfoldable pub acquire : FilePath → M (Unit {0})
acquire prefix = do _ ← lock_path prefix; touch; touch; touch

same_source : Option RuntimeUpdateConfig → Text → Text → Bool
same_source none channel package_name = false
same_source (some c) channel package_name =
    (c.channel == channel) && (c.package_name == package_name)

same_delegate : Option Text → Text → Bool
same_delegate none delegate = true
same_delegate (some recorded) delegate = delegate == recorded

-- The comparison of a stamp with the managed runtime, in `verify_stamped_file`.
unfoldable pub stamp_matches :
    PrefixMetadata → ExecutableUpdateMetadata → Text → RuntimeDataHeader → Bool
unfolding same_source same_delegate
stamp_matches meta u version header =
    (header.artifact_name == u.artifact_name)
    && ((header.runtime_name == meta.display_name)
        && ((header.install_name == meta.install_name)
            && ((header.metadata_file == meta.metadata_file)
                && ((header.runtime_version == version)
                    && (same_source header.update u.channel u.package_name
                        && same_delegate meta.delegate_executable header.delegate_executable)))))

is_absolute : FilePath → Bool
is_absolute p = p.rooted

unfoldable pub direct_only : UpdateOwnership → M (Unit {0})
direct_only direct = return tt
direct_only external = fail externally_managed

unfoldable pub direct_update : PrefixMetadata → M ExecutableUpdateMetadata
unfolding direct_only is_absolute
direct_update meta = do
  update ← from_option meta.update not_configured
  direct_only update.ownership
  guard (is_absolute update.executable) not_absolute
  guard
      (not (
        is_empty update.artifact_name || (is_empty update.channel || is_empty update.package_name)))
      incomplete_metadata
  validate_sha256 update.sha256
  return update

module _ (host : Host) where
  unfoldable pub sha256_hex : FilePath → M Text
  sha256_hex path = do bytes ← read_file path; return (hex (host.digest.sha256 bytes))

  -- `bundle.verify()` opens the file again.
  unfoldable pub check_bundle : FilePath → Option Bool → M (Unit {0})
  check_bundle path none = return tt
  check_bundle path (some whole) = do _ ← read_file path; guard whole bundle_corrupt

  check_stamp : PrefixMetadata → ExecutableUpdateMetadata → FilePath → Text → Stamp → M (Unit {0})
  check_stamp meta update path version unreadable = fail stamp_unreadable
  check_stamp meta update path version unstamped = fail not_stamped
  check_stamp meta update path version (stamped header bundle) = do
    guard (stamp_matches meta update version header) stamp_mismatch
    check_bundle path bundle

  unfoldable pub verify_stamped_file :
      PrefixMetadata → ExecutableUpdateMetadata → FilePath → Text → Text → M (Unit {0})
  unfolding check_stamp check_bundle
  verify_stamped_file meta update path version expected_sha256 = do
    validate_sha256 expected_sha256
    actual_sha256 ← sha256_hex path
    guard (actual_sha256 == expected_sha256) digest_mismatch
    bytes ← read_file path
    check_stamp meta update path version (host.stamp bytes)

  unfoldable pub validate_current_metadata : PrefixMetadata → Text → M (Unit {0})
  validate_current_metadata meta metadata_file =
      if host.current_stamped
      then validate_metadata_ready_for meta host.current_header.runtime_name
          host.current_header.install_name metadata_file
      else validate_metadata_ready_for meta meta.display_name meta.install_name metadata_file

  configured : PrefixMetadata → Option ExecutableUpdateMetadata → M PrefixMetadata
  configured meta none = fail not_configured
  configured meta (some _) = return meta

  unfoldable pub read_owned_metadata : FilePath → Text → M PrefixMetadata
  unfolding configured
  read_owned_metadata prefix metadata_file = do
    meta ← read_metadata_for host.json prefix metadata_file
    validate_current_metadata meta metadata_file
    configured meta meta.update
