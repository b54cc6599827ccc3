-- ===== src/Commands/States.antt =====
-- The states of a prefix that src/commands.rs tells apart, and what its checks answer on them.
use conda_ship.Prelude.{
  ◌<◌, ◌+◌, arith, ap, codes, length, true, none, some, Text, Bytes, list_eq, number_eq, ◌≡◌, ◌≢◌,
  ◌∙◌, ◌⊎◌,
}
use conda_ship.Fs.FilePath.{FilePath, join, length-with_extension}
use conda_ship.Fs.Checked.{accepted}
use conda_ship.Fs.Calls.{Files, missing, directory, file}
use conda_ship.Config.Metadata.{
  PrefixMetadata, installing, is_ready, prefix_metadata_schema_version,
}
use conda_ship.Config.Store.{
  metadata_path_for, temporary_metadata_path_for, backup_metadata_path_for,
}
use conda_ship.Config.Holds.{AreDistinct, Settled}
use conda_ship.BootstrapState.Marker.{BootstrapState, current, path, temporary_path}
use conda_ship.BootstrapState.Kept.{IsMarked, Marks}
use conda_ship.Commands.Delegate.{executable_in_prefix, validate_executable_name}
use conda_ship.Commands.Disposition.{ManagedPrefixIdentity, bootstrap_identity, Surroundings}

module _ (around : Surroundings) (prefix : FilePath) (identity : ManagedPrefixIdentity) where
  abbrev pub metadata_path : FilePath
  metadata_path = metadata_path_for prefix identity.metadata_file

  abbrev pub temporary : FilePath
  temporary = temporary_metadata_path_for prefix identity.metadata_file

  abbrev pub backup : FilePath
  backup = backup_metadata_path_for prefix identity.metadata_file

  abbrev pub marker : BootstrapState
  marker = current installing (bootstrap_identity identity)

  -- The files that the program keeps have different names, and the metadata file is an entry of
  -- the prefix.
  pub record IsLaidOut : Type 0 where
    pub entry : metadata_path ≡ join prefix identity.metadata_file
    pub distinct : AreDistinct metadata_path temporary backup
    pub marker_tmp : path prefix ≢ temporary_path prefix
    pub marker_metadata : path prefix ≢ metadata_path
    pub marker_temporary : path prefix ≢ temporary
    pub marker_backup : path prefix ≢ backup
    pub tmp_metadata : temporary_path prefix ≢ metadata_path
    pub tmp_temporary : temporary_path prefix ≢ temporary
    pub tmp_backup : temporary_path prefix ≢ backup

  -- The files of the metadata lie below the prefix.
  pub record IsBelow : Type 0 where
    pub metadata_below : length prefix.parts < length metadata_path.parts
    pub temporary_below : length prefix.parts < length temporary.parts
    pub backup_below : length prefix.parts < length backup.parts

  module _ (laid : IsLaidOut) where
    pub metadata_level : length metadata_path.parts ≡ length prefix.parts + 1
    metadata_level = omega (arith, ap (λ p. length p.parts) laid.entry)

    pub temporary_level : length temporary.parts ≡ length prefix.parts + 1
    unfolding temporary_metadata_path_for
    temporary_level = length-with_extension metadata_path (codes "tmp") ∙ metadata_level

    pub backup_level : length backup.parts ≡ length prefix.parts + 1
    unfolding backup_metadata_path_for
    backup_level = length-with_extension metadata_path (codes "bak") ∙ metadata_level

    pub laid-IsBelow : IsBelow
    laid-IsBelow = record {
      metadata_below = omega (arith, metadata_level);
      temporary_below = omega (arith, temporary_level);
      backup_below = omega (arith, backup_level);
    }

  -- Metadata of this runtime, complete, and its delegate.
  pub record IsHealthy (s : Files) (m : PrefixMetadata) : Type 0 where
    pub schema : m.schema_version ≡ prefix_metadata_schema_version
    pub display : m.display_name ≡ identity.display_name
    pub install : m.install_name ≡ identity.install_name
    pub file_name : m.metadata_file ≡ identity.metadata_file
    pub complete : is_ready m.bootstrap_state ≡ true
    pub delegate : Text
    pub recorded : m.delegate_executable ≡ some delegate
    pub expected :
        (identity.expected_delegate ≡ none) ⊎ (identity.expected_delegate ≡ some delegate)
    pub named : validate_executable_name delegate ≡ accepted tt
    pub bytes : Bytes
    pub there : s (executable_in_prefix prefix delegate) ≡ file bytes

  -- Only the delegate's file matters.
  pub move-Healthy :
      {s t : Files} {m : PrefixMetadata} (k : IsHealthy s m)
      → t (executable_in_prefix prefix k.delegate) ≡ s (executable_in_prefix prefix k.delegate)
      → IsHealthy t m
  move-Healthy k same = record {
    schema = k.schema;
    display = k.display;
    install = k.install;
    file_name = k.file_name;
    complete = k.complete;
    delegate = k.delegate;
    recorded = k.recorded;
    expected = k.expected;
    named = k.named;
    bytes = k.bytes;
    there = same ∙ k.there;
  }

  abbrev pub Unmarked : Files → Type 0
  Unmarked s = (s (path prefix) ≡ missing) × (s (temporary_path prefix) ≡ missing)

  abbrev pub Stored : Files → PrefixMetadata → Type 0
  Stored s m = Settled around.json metadata_path temporary backup s m

  abbrev pub Marked : Files → Type 0
  Marked s =
      IsMarked around.state_json (path prefix) (temporary_path prefix) s marker
      × (s (temporary_path prefix) ≡ missing)

  pub data PrefixState : Type 0 where
    vacant interrupted : PrefixState
    committed managed : PrefixMetadata → PrefixState

  abbrev pub Complete : Files → PrefixMetadata → Type 0
  Complete s m = Stored s m × IsHealthy s m × (s prefix ≡ directory)

  -- Nothing there; an installation that was begun; one whose marker was left; a finished one.
  abbrev pub Shows : PrefixState → Files → Type 0
  Shows vacant s =
      Unmarked s
      × ((s prefix ≡ missing)
          ⊎ ((s prefix ≡ directory) × (around.directories.is_empty s prefix ≡ true)))
  Shows interrupted s =
      Marks around.state_json (path prefix) (temporary_path prefix) s marker
      × (s metadata_path ≡ missing)
      × (s prefix ≡ directory)
  Shows (committed m) s = Marked s × Complete s m
  Shows (managed m) s = Unmarked s × Complete s m
