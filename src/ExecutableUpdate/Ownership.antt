-- ===== src/ExecutableUpdate/Ownership.antt =====
-- What a run of the installed executable says of itself against the record:
-- `reconcile_current_executable` of src/executable_update.rs.
use conda_ship.Prelude.{
  ℕ, Bool, true, false, not, ◌&&◌, ◌||◌, Option, none, some, [], Text, is_empty, is_some, ◌==◌,
  ◌!=◌, list_eq, number_eq, option_eq, if◌then◌else◌,
}
use conda_ship.Fs.FilePath.{FilePath, path_eq}
use conda_ship.Fs.Failure.{digest_mismatch, replacement_pending, source_changed, changed_outside}
use conda_ship.Fs.Calls.{M, ◌>>=◌, ◌>>◌, return, guard}
use conda_ship.RuntimeData.Header.{UpdateOwnership, ownership_eq, direct, external}
use conda_ship.Config.Store.{persist_metadata_for, read_metadata_for}
use conda_ship.Config.Metadata.{
  PendingExecutablePhase, PendingExecutableUpdate, ExecutableUpdateMetadata, PrefixMetadata,
  update_eq,
}
use conda_ship.ExecutableUpdate.Types.{ExecutableUpdateOutcome, Host}
use conda_ship.ExecutableUpdate.Stamp.{
  acquire, validate_sha256, sha256_hex, verify_stamped_file, validate_current_metadata,
}

unfoldable pub update_source_changed : ExecutableUpdateMetadata → Text → Text → Text → Bool
update_source_changed previous artifact_name channel package_name =
    (not (is_empty previous.artifact_name) && previous.artifact_name != artifact_name)
    || ((not (is_empty previous.channel) && previous.channel != channel)
        || (not (is_empty previous.package_name) && previous.package_name != package_name))

empty_path : FilePath
empty_path = record { rooted = false; parts = [] }

unfoldable pub initialized : ExecutableUpdateMetadata → Bool
unfolding empty_path
initialized previous =
    not (previous.executable == empty_path)
    || (not (is_empty previous.artifact_name) || not (is_empty previous.sha256))

abbrev pub is_direct : UpdateOwnership → Bool
is_direct o = o == direct

abbrev pub is_external : UpdateOwnership → Bool
is_external o = o == external

-- What a run of the installed executable says of itself.
pub record Observed : Type 0 where
  pub executable : FilePath
  pub ownership : UpdateOwnership
  pub installation : Option Text
  pub artifact_name : Text
  pub channel : Text
  pub package_name : Text
  pub build_number : ℕ
  pub instruction : Option Text
  pub runtime_version : Text
  pub runtime_digest : Text

abbrev pub replacement_for : Observed → ExecutableUpdateMetadata
replacement_for o = record {
  executable = o.executable;
  ownership = o.ownership;
  installation = o.installation;
  artifact_name = o.artifact_name;
  channel = o.channel;
  package_name = o.package_name;
  build_number = o.build_number;
  sha256 = o.runtime_digest;
  instruction = o.instruction;
  pending = none;
}

-- No field of the recorded update but `pending` differs from what is observed.
unfoldable pub unchanged : PrefixMetadata → ExecutableUpdateMetadata → Observed → Bool
unchanged meta previous o =
    (previous.executable == o.executable)
    && ((previous.ownership == o.ownership)
        && ((previous.installation == o.installation)
            && ((previous.artifact_name == o.artifact_name)
                && ((previous.channel == o.channel)
                    && ((previous.package_name == o.package_name)
                        && ((previous.build_number == o.build_number)
                            && ((previous.instruction == o.instruction)
                                && ((previous.sha256 == o.runtime_digest)
                                    && (meta.version == o.runtime_version)))))))))

is_settled_phase : PendingExecutablePhase → Bool
is_settled_phase PendingExecutablePhase.staged = true
is_settled_phase PendingExecutablePhase.cleanup = true
is_settled_phase PendingExecutablePhase.ready = false
is_settled_phase PendingExecutablePhase.replacing = false

-- A direct installation whose record does not describe what is observed.
direct_differs : PrefixMetadata → ExecutableUpdateMetadata → Observed → Bool
direct_differs meta previous o =
    initialized previous
    && (is_direct previous.ownership
        && (is_some previous.installation
            && (not (is_direct o.ownership) || not (unchanged meta previous o))))

unfoldable pub may_reconcile :
    PrefixMetadata → Option ExecutableUpdateMetadata → Observed → M (Unit {0})
unfolding direct_differs
may_reconcile meta none o = return tt
may_reconcile meta (some previous) o = do
  guard (not (update_source_changed previous o.artifact_name o.channel o.package_name))
      source_changed
  guard (not (direct_differs meta previous o)) changed_outside

pending_in : Option ExecutableUpdateMetadata → Option PendingExecutableUpdate
pending_in none = none
pending_in (some u) = u.pending

module _ (host : Host) (prefix : FilePath) (metadata_file : Text) where
  -- The end of both functions: the record is written if it says something new.
  unfoldable pub store :
      PrefixMetadata → ExecutableUpdateMetadata → Text → M ExecutableUpdateOutcome
  store meta replacement runtime_version =
      if (meta.update == some replacement) && (meta.version == runtime_version)
      then return ExecutableUpdateOutcome.unneeded
      else do
        persist_metadata_for host.json prefix metadata_file
            (record meta { version = runtime_version; update = some replacement })
        return ExecutableUpdateOutcome.reconciled

  reconcile_pending :
      PrefixMetadata
      → ExecutableUpdateMetadata
      → PendingExecutableUpdate
      → Observed
      → M ExecutableUpdateOutcome
  reconcile_pending meta previous pending o = do
    guard (is_settled_phase pending.phase && unchanged meta previous o) replacement_pending
    verify_stamped_file host meta previous o.executable o.runtime_version o.runtime_digest
    return ExecutableUpdateOutcome.unneeded

  reconcile_idle : PrefixMetadata → Observed → M ExecutableUpdateOutcome
  reconcile_idle meta o = do
    may_reconcile meta meta.update o
    verify_stamped_file host meta (replacement_for o) o.executable o.runtime_version
        o.runtime_digest
    store meta (replacement_for o) o.runtime_version

  reconcile_with :
      PrefixMetadata → Option ExecutableUpdateMetadata → Observed → M ExecutableUpdateOutcome
  reconcile_with meta none o = reconcile_idle meta o
  reconcile_with meta (some previous) o = elim previous.pending [
    | some pending ↦ reconcile_pending meta previous pending o
    | none ↦ reconcile_idle meta o
  ]

  unfoldable pub reconcile_current_executable : Observed → M ExecutableUpdateOutcome
  unfolding reconcile_with reconcile_pending reconcile_idle is_settled_phase
  reconcile_current_executable o = do
    acquire prefix
    meta ← read_metadata_for host.json prefix metadata_file
    validate_current_metadata host meta metadata_file
    validate_sha256 o.runtime_digest
    actual_digest ← sha256_hex host o.executable
    guard (actual_digest == o.runtime_digest) digest_mismatch
    reconcile_with meta meta.update o
