-- ===== src/ExecutableUpdate/Installation.antt =====
-- How an installation is managed: `record_installation` of src/executable_update.rs.
use conda_ship.Prelude.{
  Bool, false, not, ◌&&◌, ◌||◌, Option, none, some, Text, is_blank, is_some, ◌==◌, ◌!=◌, list_eq,
  number_eq, option_eq,
}
use conda_ship.Fs.FilePath.{FilePath, path_eq}
use conda_ship.Fs.Failure.{
  not_configured, not_absolute, invalid_installation, direct_with_instruction, blank_instruction,
  replacement_pending, source_changed, external_is_final, installation_changed, path_changed,
  instruction_changed, changed_outside, not_running, unresolved, not_found,
}
use conda_ship.Fs.Calls.{
  M, ◌>>=◌, ◌>>◌, return, fail, guard, from_option, regular, irregular, symlink_metadata, touch,
}
use conda_ship.RuntimeData.Header.{
  RuntimeUpdateConfig, UpdateOwnership, ownership_eq, direct, external,
}
use conda_ship.Config.Store.{read_metadata_for}
use conda_ship.Config.Metadata.{ExecutableUpdateMetadata, PrefixMetadata, update_eq}
use conda_ship.ExecutableUpdate.Types.{ExecutableUpdateOutcome, Host}
use conda_ship.ExecutableUpdate.Stamp.{
  acquire, sha256_hex, verify_stamped_file, validate_current_metadata,
}
use conda_ship.ExecutableUpdate.Ownership.{
  update_source_changed, initialized, is_direct, is_external, store,
}

module _ (host : Host) (prefix : FilePath) (metadata_file : Text) where
  -- `std::fs::canonicalize`
  canonicalize : FilePath → M FilePath
  canonicalize path = do touch; from_option (host.canonicalize path) unresolved

  unfoldable pub verify_running_executable : FilePath → M (Unit {0})
  unfolding canonicalize
  verify_running_executable recorded = do
    guard recorded.rooted not_absolute
    touch
    current ← from_option host.current_exe not_found
    current ← canonicalize current
    recorded ← canonicalize recorded
    guard (current == recorded) not_running

  unfoldable pub validate_instruction : UpdateOwnership → Option Text → M (Unit {0})
  validate_instruction direct none = return tt
  validate_instruction direct (some _) = fail direct_with_instruction
  validate_instruction external none = return tt
  validate_instruction external (some instruction) =
      guard (not (is_blank instruction)) blank_instruction

  -- A recorded installation that has another name.
  renamed : Option Text → Text → Bool
  renamed none installation = false
  renamed (some recorded) installation = recorded != installation

  -- The path that is recorded for a direct installation is free of links.
  resolve : UpdateOwnership → FilePath → M FilePath
  resolve external executable = return executable
  resolve direct executable = do
    found ← symlink_metadata executable
    k ← from_option found not_found
    elim k [ regular ↦ return executable | irregular ↦ canonicalize executable ]

  abbrev or_previous : Option Text → UpdateOwnership → Option Text → Option Text
  or_previous (some instruction) _ _ = some instruction
  or_previous none external previous = previous
  or_previous none direct previous = none

  instruction_for : ExecutableUpdateMetadata → UpdateOwnership → Option Text → Option Text
  instruction_for previous direct instruction = none
  instruction_for previous external instruction =
      or_previous instruction previous.ownership previous.instruction

  abbrev fixed : ExecutableUpdateMetadata → Bool
  fixed previous = is_external previous.ownership && is_some previous.installation

  header_differs :
      PrefixMetadata → ExecutableUpdateMetadata → RuntimeUpdateConfig → FilePath → Text → Bool
  header_differs meta previous update executable runtime_digest =
      (previous.executable != executable)
      || ((previous.artifact_name != host.current_header.artifact_name)
          || ((previous.channel != update.channel)
              || ((previous.package_name != update.package_name)
                  || ((previous.build_number != update.build_number)
                      || ((previous.sha256 != runtime_digest)
                          || (meta.version != host.current_header.runtime_version))))))

  record_over :
      PrefixMetadata
      → ExecutableUpdateMetadata
      → RuntimeUpdateConfig
      → FilePath
      → UpdateOwnership
      → Text
      → Option Text
      → M ExecutableUpdateOutcome
  record_over meta previous update executable ownership installation instruction = do
    guard (not (is_some previous.pending)) replacement_pending
    guard
        (not (
          update_source_changed previous host.current_header.artifact_name update.channel
            update.package_name))
        source_changed
    guard (not (is_external previous.ownership && is_direct ownership)) external_is_final
    guard
        (not (
          renamed previous.installation installation
          && not (is_direct previous.ownership && is_external ownership)))
        installation_changed
    executable ← resolve ownership executable
    guard (not (fixed previous && previous.executable != executable)) path_changed
    verify_running_executable executable
    runtime_digest ← sha256_hex host executable
    guard
        (not (
          initialized previous
          && (is_direct previous.ownership
              && (is_direct ownership
                  && header_differs meta previous update executable runtime_digest))))
        changed_outside
    let instruction = instruction_for previous ownership instruction
    guard (not (fixed previous && previous.instruction != instruction)) instruction_changed
    let replacement : ExecutableUpdateMetadata = record {
      executable = executable;
      ownership = ownership;
      installation = some installation;
      artifact_name = host.current_header.artifact_name;
      channel = update.channel;
      package_name = update.package_name;
      build_number = update.build_number;
      sha256 = runtime_digest;
      instruction = instruction;
      pending = none;
    }
    verify_stamped_file host meta replacement executable host.current_header.runtime_version
        runtime_digest
    store host prefix metadata_file meta replacement host.current_header.runtime_version

  unfoldable pub record_installation :
      FilePath → UpdateOwnership → Text → Option Text → M ExecutableUpdateOutcome
  unfolding validate_instruction record_over renamed resolve instruction_for header_differs
      canonicalize
  record_installation executable ownership installation instruction = do
    guard (not (is_blank installation)) invalid_installation
    validate_instruction ownership instruction
    acquire prefix
    meta ← read_metadata_for host.json prefix metadata_file
    validate_current_metadata host meta metadata_file
    previous ← from_option meta.update not_configured
    update ← from_option host.current_header.update not_configured
    record_over meta previous update executable ownership installation instruction
