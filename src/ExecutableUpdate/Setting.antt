-- ===== src/ExecutableUpdate/Setting.antt =====
-- One update of one managed runtime: what is recorded, which files stand where, and the states that
-- an update goes through.
use conda_ship.Prelude.{
  ℕ, true, false, ◌||◌, Option, none, some, Text, Bytes, codes, is_empty, ◌≡◌, ◌≢◌, ◌⊎◌,
}
use conda_ship.Fs.FilePath.{FilePath, join, parent, file_name}
use conda_ship.Fs.Calls.{Files, missing, file}
use conda_ship.RuntimeData.Header.{direct}
use conda_ship.Config.Holds.{AreDistinct, Settled, Holds}
use conda_ship.Config.Store.{
  metadata_path_for, temporary_metadata_path_for, backup_metadata_path_for,
}
use conda_ship.Config.Metadata.{
  PendingExecutablePhase, PendingExecutableUpdate, ExecutableUpdateMetadata, PrefixMetadata,
  BootstrapPhase, prefix_metadata_schema_version,
}
use conda_ship.ExecutableUpdate.Types.{Host}
use conda_ship.ExecutableUpdate.Stamp.{adjacent_name}
use conda_ship.ExecutableUpdate.Facts.{Verified}

-- The metadata before the update, with no update pending, and the update that is selected.
pub record Selection : Type 0 where
  pub base : PrefixMetadata
  pub installed : ExecutableUpdateMetadata
  pub version : Text
  pub build_number : ℕ
  pub digest : Text

abbrev pub pending_at : Selection → PendingExecutablePhase → PendingExecutableUpdate
pending_at c phase = record {
  phase = phase;
  version = c.version;
  build_number = c.build_number;
  executable_sha256 = c.digest;
}

abbrev pub update_with : Selection → Option PendingExecutableUpdate → ExecutableUpdateMetadata
update_with c p = record (c.installed) { pending = p }

-- Nothing is pending.
abbrev pub idle : Selection → PrefixMetadata
idle c = record (c.base) { update = some (update_with c none) }

abbrev pub pending_meta : Selection → PendingExecutablePhase → PrefixMetadata
pending_meta c phase = record (c.base) { update = some (update_with c (some (pending_at c phase))) }

-- The update is installed.
abbrev pub committed : Selection → PrefixMetadata
committed c = record (c.base) {
  version = c.version;
  update =
      some
        (record (c.installed) { build_number = c.build_number; sha256 = c.digest; pending = none });
}

-- The paths of the update, and that they do not meet.
pub record Places (prefix : FilePath) (metadata_file : Text) (c : Selection) : Type 0 where
  pub prefix_parent : FilePath
  pub prefix_name : Text
  pub prefix_above : parent prefix ≡ some prefix_parent
  pub prefix_named : file_name prefix ≡ some prefix_name
  pub directory : FilePath
  pub name : Text
  pub above : parent c.installed.executable ≡ some directory
  pub named : file_name c.installed.executable ≡ some name
  pub distinct :
      AreDistinct
        (metadata_path_for prefix metadata_file)
        (temporary_metadata_path_for prefix metadata_file)
        (backup_metadata_path_for prefix metadata_file)

abbrev pub target_of : Selection → FilePath
target_of c = c.installed.executable

module _ {prefix : FilePath} {metadata_file : Text} {c : Selection}
    (p : Places prefix metadata_file c) where
  abbrev pub candidate_of : FilePath
  candidate_of = join p.directory (adjacent_name p.name c.digest (codes "new"))

  abbrev pub backup_of : FilePath
  backup_of = join p.directory (adjacent_name p.name c.installed.sha256 (codes "old"))

-- No file of the executable is a file of the metadata.
pub record AreApart (q path tmp bak : FilePath) : Type 0 where
  pub not_path : q ≢ path
  pub not_tmp : q ≢ tmp
  pub not_bak : q ≢ bak

-- What must be true for the update to be possible.
pub record IsSound (host : Host) (prefix : FilePath) (metadata_file : Text) (c : Selection)
    (p : Places prefix metadata_file c) : Type 0 where
  pub owned : c.installed.ownership ≡ direct
  pub absolute : c.installed.executable.rooted ≡ true
  pub complete :
      (is_empty c.installed.artifact_name
        || (is_empty c.installed.channel || is_empty c.installed.package_name))
      ≡ false
  pub schema : c.base.schema_version ≡ prefix_metadata_schema_version
  pub is_ready : c.base.bootstrap_state ≡ BootstrapPhase.ready
  pub same_file : c.base.metadata_file ≡ metadata_file
  pub current :
      (host.current_stamped ≡ false)
      ⊎ ((host.current_header.runtime_name ≡ c.base.display_name)
          × (host.current_header.install_name ≡ c.base.install_name))
  pub differ : c.digest ≢ c.installed.sha256
  pub old_bytes : Bytes
  pub new_bytes : Bytes
  pub old_verified : Verified host c.base c.installed old_bytes c.base.version c.installed.sha256
  pub new_verified : Verified host c.base c.installed new_bytes c.version c.digest
  pub target_apart :
      AreApart
        (target_of c)
        (metadata_path_for prefix metadata_file)
        (temporary_metadata_path_for prefix metadata_file)
        (backup_metadata_path_for prefix metadata_file)
  pub candidate_apart :
      AreApart
        (candidate_of p)
        (metadata_path_for prefix metadata_file)
        (temporary_metadata_path_for prefix metadata_file)
        (backup_metadata_path_for prefix metadata_file)
  pub backup_apart :
      AreApart
        (backup_of p)
        (metadata_path_for prefix metadata_file)
        (temporary_metadata_path_for prefix metadata_file)
        (backup_metadata_path_for prefix metadata_file)

module _ (host : Host) (prefix : FilePath) (metadata_file : Text) (c : Selection)
    (p : Places prefix metadata_file c) (ok : IsSound host prefix metadata_file c p) where
  -- The next reader of the metadata finds `meta`.
  abbrev pub Records : Files → PrefixMetadata → Type 0
  Records s meta =
      Holds host.json (metadata_path_for prefix metadata_file)
        (temporary_metadata_path_for prefix metadata_file)
        (backup_metadata_path_for prefix metadata_file) s meta

  -- The same, with the metadata in its own file.
  abbrev pub RecordsSettled : Files → PrefixMetadata → Type 0
  RecordsSettled s meta =
      Settled host.json (metadata_path_for prefix metadata_file)
        (temporary_metadata_path_for prefix metadata_file)
        (backup_metadata_path_for prefix metadata_file) s meta

  -- The three files of the executable: target, candidate and backup.
  pub record OldInPlace (s : Files) : Type 0 where
    pub target : s (target_of c) ≡ file ok.old_bytes
    pub candidate : s (candidate_of p) ≡ file ok.new_bytes
    pub backup : s (backup_of p) ≡ missing

  pub record NewInPlace (s : Files) : Type 0 where
    pub target : s (target_of c) ≡ file ok.new_bytes
    pub candidate : s (candidate_of p) ≡ missing
    pub backup : s (backup_of p) ≡ missing

  -- A replacement that was approved: not begun, begun, with its file moved, and done.
  pub data InProgress (s : Files) : Type 0 where
    approved : Records s (pending_meta c PendingExecutablePhase.ready) → OldInPlace s → InProgress s
    begun :
        Records s (pending_meta c PendingExecutablePhase.replacing) → OldInPlace s → InProgress s
    moved_over :
        Records s (pending_meta c PendingExecutablePhase.replacing) → NewInPlace s → InProgress s
    installed : Records s (committed c) → NewInPlace s → InProgress s

  pub record IsInstalled (s : Files) : Type 0 where
    pub recorded : RecordsSettled s (committed c)
    pub files : NewInPlace s
