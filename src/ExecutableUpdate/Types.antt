-- ===== src/ExecutableUpdate/Types.antt =====
-- The types of src/executable_update.rs, and the edits of the recorded metadata.
use mathlib.Core.Option
use conda_ship.Prelude.{Option, none, some, Bytes, Bool}
use conda_ship.Fs.FilePath.{FilePath}
use conda_ship.Hash.{Digest}
use conda_ship.RuntimeData.Header.{RuntimeDataHeader}
use conda_ship.Config.Store.{Json}
use conda_ship.Config.Metadata.{
  PendingExecutablePhase, PendingExecutableUpdate, ExecutableUpdateMetadata, PrefixMetadata,
}

pub data ExecutableUpdateOutcome : Type 0 where
  unneeded staged ready applied cleanup_pending discarded_staged : ExecutableUpdateOutcome
  restored_previous reconciled : ExecutableUpdateOutcome

pub data FileVersion : Type 0 where
  absent old new : FileVersion

pub record FileState : Type 0 where
  pub target : FileVersion
  pub candidate : FileVersion
  pub backup : FileVersion

-- What `runtime_data::read_from_path` says of a file with these bytes, and whether the bundle in it
-- passes `EmbeddedBundle::verify`, if there is one.
pub data Stamp : Type 0 where
  unreadable unstamped : Stamp
  stamped : RuntimeDataHeader → Option Bool → Stamp

-- What the code takes from outside this component: the JSON and SHA-256 libraries, the reader of
-- stamps, the runtime that is running, whether another process holds the update lock, and the
-- system's answers about links.
pub record Host : Type 0 where
  pub json : Json
  pub digest : Digest
  pub stamp : Bytes → Stamp
  pub current_stamped : Bool
  pub current_header : RuntimeDataHeader
  pub update_lock_held : Bool
  pub current_exe : Option FilePath
  pub canonicalize : FilePath → Option FilePath

abbrev with_phase : PendingExecutablePhase → PendingExecutableUpdate → PendingExecutableUpdate
with_phase phase p = record p { phase = phase }

abbrev with_pending :
    (Option PendingExecutableUpdate → Option PendingExecutableUpdate)
    → ExecutableUpdateMetadata
    → ExecutableUpdateMetadata
with_pending f u = record u { pending = f u.pending }

abbrev on_update :
    (ExecutableUpdateMetadata → ExecutableUpdateMetadata) → PrefixMetadata → PrefixMetadata
on_update f meta = record meta { update = Option.map f meta.update }

unfoldable pub set_phase : PrefixMetadata → PendingExecutablePhase → PrefixMetadata
set_phase meta phase = on_update (with_pending (Option.map (with_phase phase))) meta

unfoldable pub clear_pending : PrefixMetadata → PrefixMetadata
clear_pending meta = on_update (with_pending (λ _. none)) meta

unfoldable pub set_pending : PrefixMetadata → PendingExecutableUpdate → PrefixMetadata
set_pending meta p = on_update (with_pending (λ _. some p)) meta

abbrev commit :
    PrefixMetadata → ExecutableUpdateMetadata → Option PendingExecutableUpdate → PrefixMetadata
commit meta u none = meta
commit meta u (some p) = record meta {
  version = p.version;
  update = some (record u { build_number = p.build_number; sha256 = p.executable_sha256 });
}

abbrev commit_update : PrefixMetadata → Option ExecutableUpdateMetadata → PrefixMetadata
commit_update meta none = meta
commit_update meta (some u) = commit meta u u.pending

-- The `expect`s of the source are met wherever it is called: an update is pending.
unfoldable pub commit_new_version : PrefixMetadata → PrefixMetadata
commit_new_version meta = commit_update meta meta.update
