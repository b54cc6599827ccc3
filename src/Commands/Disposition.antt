-- ===== src/Commands/Disposition.antt =====
-- Whether a prefix is ready, new, or left by an interrupted installation: src/commands.rs.
use conda_ship.Prelude.{
  Bool, true, false, Option, none, some, Text, ◌==◌, list_eq, number_eq, if◌then◌else◌, inl, inr,
  ◌≡◌,
}
use conda_ship.Fs.FilePath.{FilePath, join}
use conda_ship.Fs.Failure.{
  not_regular, not_directory, no_delegate, delegate_conflict, invalid_phase,
}
use conda_ship.Fs.Calls.{
  M, ◌>>=◌, ◌>>◌, return, fail, guard, attempt, is_regular, Node, missing, directory, file, link,
  Files, syscall, whole, done, symlink_metadata, exists, is_dir,
}
use conda_ship.Config.Metadata.{
  PrefixMetadata, is_ready, validate_metadata_identity_for, validate_metadata_ready_for,
}
use conda_ship.Config.Store.{Json, metadata_path_for, read_metadata_for}
use conda_ship.BootstrapState.Marker.{
  BootstrapState, BootstrapIdentity, StateJson, read, remove, validate_identity_for, is_installing,
}
use conda_ship.Commands.Delegate.{validate_delegate}

pub record ManagedPrefixIdentity : Type 0 where
  pub display_name : Text
  pub install_name : Text
  pub metadata_file : Text
  pub expected_delegate : Option Text

unfoldable pub bootstrap_identity : ManagedPrefixIdentity → BootstrapIdentity
bootstrap_identity identity = record {
  display_name = identity.display_name;
  install_name = identity.install_name;
  metadata_file = identity.metadata_file;
}

pub data PrefixDisposition : Type 0 where
  ready : PrefixDisposition
  bootstrap : Bool → PrefixDisposition

-- What `read_dir` says of a directory: one without entries has none under any name.
pub record Directories : Type 0 where
  pub is_empty : Files → FilePath → Bool
  pub empty-missing :
      (s : Files) (d : FilePath) → is_empty s d ≡ true → (name : Text) → s (join d name) ≡ missing

-- The parsers, and the listing of directories.
pub record Surroundings : Type 0 where
  pub json : Json
  pub state_json : StateJson
  pub directories : Directories

abbrev pub is_directory : Node → Bool
is_directory directory = true
is_directory _ = false

-- `symlink_metadata` where the answer is tested for a directory.
unfoldable pub symlink_metadata_is_dir : FilePath → M (Option Bool)
symlink_metadata_is_dir p = syscall whole (λ s. elim (s p) [
  | missing ↦ done none s
  | directory ↦ done (some true) s
  | file _ ↦ done (some false) s
  | link _ ↦ done (some false) s
])

unfoldable pub validate_prefix_path : FilePath → M (Unit {0})
unfolding symlink_metadata_is_dir
validate_prefix_path prefix = do
  found ← symlink_metadata_is_dir prefix
  elim found [ none ↦ return tt | some d ↦ guard d not_directory ]

module _ (around : Surroundings) where
  unfoldable pub is_empty_dir : FilePath → M Bool
  is_empty_dir prefix = do
    present ← is_dir prefix
    elim present [
      | false ↦ return false
      | true ↦ syscall whole (λ s. done (around.directories.is_empty s prefix) s)
    ]

  unfoldable pub read_managed_metadata_for : FilePath → ManagedPrefixIdentity → M PrefixMetadata
  read_managed_metadata_for prefix identity = do
    found ← symlink_metadata (metadata_path_for prefix identity.metadata_file)
    elim found [ none ↦ return tt | some k ↦ guard (is_regular k) not_regular ]
    meta ← read_metadata_for around.json prefix identity.metadata_file
    validate_metadata_ready_for meta identity.display_name identity.install_name
        identity.metadata_file
    return meta

  recorded_delegate : Option Text → Option Text → M Text
  recorded_delegate (some expected) (some recorded) =
      if recorded == expected then return expected else fail delegate_conflict
  recorded_delegate (some expected) none = return expected
  recorded_delegate none (some recorded) = return recorded
  recorded_delegate none none = fail no_delegate

  unfoldable pub validate_recorded_delegate : FilePath → PrefixMetadata → Option Text → M (Unit {0})
  unfolding recorded_delegate
  validate_recorded_delegate prefix meta fallback = do
    delegate ← recorded_delegate fallback meta.delegate_executable
    validate_delegate prefix delegate

  unfoldable pub validate_ready_prefix_for : FilePath → ManagedPrefixIdentity → M (Unit {0})
  validate_ready_prefix_for prefix identity = do
    meta ← read_managed_metadata_for prefix identity
    validate_recorded_delegate prefix meta identity.expected_delegate

  -- `require_healthy_delegate`, or no test of the delegate.
  unfoldable pub is_healthy : Bool → FilePath → PrefixMetadata → Option Text → M Bool
  is_healthy false prefix meta expected = return true
  is_healthy true prefix meta expected = do
    valid ← attempt (validate_recorded_delegate prefix meta expected)
    elim valid [ inl _ ↦ return false | inr _ ↦ return true ]

  -- The prefix of a finished installation whose marker was left.
  finish_ready : FilePath → Bool → M PrefixDisposition
  finish_ready prefix false = return (bootstrap true)
  finish_ready prefix true = do remove prefix; return ready

  commit_if_ready : Bool → FilePath → ManagedPrefixIdentity → PrefixMetadata → M PrefixDisposition
  commit_if_ready require_healthy_delegate prefix identity meta = do
    validate_metadata_identity_for meta identity.display_name identity.install_name
        identity.metadata_file
    elim (is_ready meta.bootstrap_state) [
      | false ↦ return (bootstrap true)
      | true ↦ (do
        healthy ← is_healthy require_healthy_delegate prefix meta identity.expected_delegate
        finish_ready prefix healthy)
    ]

  with_marker : Bool → FilePath → ManagedPrefixIdentity → M PrefixDisposition
  with_marker require_healthy_delegate prefix identity = do
    found ← symlink_metadata (metadata_path_for prefix identity.metadata_file)
    elim found [
      | none ↦ return (bootstrap true)
      | some k ↦ (do
        guard (is_regular k) not_regular
        meta ← attempt (read_metadata_for around.json prefix identity.metadata_file)
        elim meta [
          | inl _ ↦ return (bootstrap true)
          | inr m ↦ commit_if_ready require_healthy_delegate prefix identity m
        ])
    ]

  unfoldable pub in_use : Bool → FilePath → ManagedPrefixIdentity → M PrefixDisposition
  in_use true prefix identity = do validate_ready_prefix_for prefix identity; return ready
  in_use false prefix identity = do _ ← read_managed_metadata_for prefix identity; return ready

  without_marker : Bool → FilePath → ManagedPrefixIdentity → M PrefixDisposition
  without_marker require_healthy_delegate prefix identity = do
    present ← exists prefix
    elim present [
      | false ↦ return (bootstrap false)
      | true ↦ (do
        vacant ← is_empty_dir prefix
        elim vacant [
          | true ↦ return (bootstrap false)
          | false ↦ in_use require_healthy_delegate prefix identity
        ])
    ]

  by_marker : Bool → FilePath → ManagedPrefixIdentity → Option BootstrapState → M PrefixDisposition
  by_marker require_healthy_delegate prefix identity none =
      without_marker require_healthy_delegate prefix identity
  by_marker require_healthy_delegate prefix identity (some state) = do
    validate_identity_for state (bootstrap_identity identity)
    guard (is_installing state.state) invalid_phase
    with_marker require_healthy_delegate prefix identity

  unfoldable pub prefix_disposition_for :
      FilePath → ManagedPrefixIdentity → Bool → M PrefixDisposition
  unfolding by_marker without_marker in_use with_marker commit_if_ready finish_ready is_healthy
  prefix_disposition_for prefix identity require_healthy_delegate = do
    validate_prefix_path prefix
    state ← read around.state_json prefix
    by_marker require_healthy_delegate prefix identity state
