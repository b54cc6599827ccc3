-- ===== src/BootstrapState/Marker.antt =====
-- The operations on the marker.
use conda_ship.Prelude.{
  ℕ, Bool, true, false, Option, none, some, [], ◌∷◌, ◌++◌, Text, Bytes, codes, ◌≡◌, ◌==◌, list_eq,
  number_eq, if◌then◌else◌,
}
use conda_ship.Fs.FilePath.{FilePath, join}
use conda_ship.Fs.Failure.{
  not_regular, unparsable, wrong_schema, wrong_display_name, wrong_install_name,
  wrong_metadata_file, invalid_phase,
}
use conda_ship.Fs.Calls.{
  M, ◌>>=◌, ◌>>◌, return, fail, guard, from_option, is_regular, symlink_metadata, read_file,
  remove_file, create, append, touch, rename,
}
use conda_ship.Fs.Directories.{create_dir_all}
use conda_ship.Config.Metadata.{BootstrapPhase, installing}

pub record BootstrapState : Type 0 where
  pub schema_version : ℕ
  pub state : BootstrapPhase
  pub display_name : Text
  pub install_name : Text
  pub metadata_file : Text

pub record BootstrapIdentity : Type 0 where
  pub display_name : Text
  pub install_name : Text
  pub metadata_file : Text

-- serde_json for the marker: what it writes it reads, also in front of a final newline.
pub record StateJson : Type 0 where
  pub parse : Bytes → Option BootstrapState
  pub render : BootstrapState → Bytes
  pub parse-render : (m : BootstrapState) → parse (render m ++ b'\n' ∷ []) ≡ some m

abbrev pub bootstrap_state_schema_version : ℕ
bootstrap_state_schema_version = 1

unfoldable pub current : BootstrapPhase → BootstrapIdentity → BootstrapState
current state identity = record {
  schema_version = bootstrap_state_schema_version;
  state = state;
  display_name = identity.display_name;
  install_name = identity.install_name;
  metadata_file = identity.metadata_file;
}

unfoldable pub path : FilePath → FilePath
path prefix = join prefix (codes ".conda-ship-bootstrap.json")

unfoldable pub temporary_path : FilePath → FilePath
temporary_path prefix = join prefix (codes ".conda-ship-bootstrap.json.tmp")

unfoldable pub remove_state_file : FilePath → M (Unit {0})
remove_state_file p = do
  found ← symlink_metadata p
  elim found [
    | none ↦ return tt
    | some k ↦ if is_regular k then remove_file p else fail not_regular
  ]

-- `read_to_string` also refuses bytes that are no text; so does the parser here.
unfoldable pub read_state_file : FilePath → M (Option Bytes)
read_state_file p = do
  found ← symlink_metadata p
  elim found [
    | none ↦ return none
    | some k ↦
        if is_regular k then (do data_ ← read_file p; return (some data_)) else fail not_regular
  ]

abbrev pub is_installing : BootstrapPhase → Bool
is_installing installing = true
is_installing BootstrapPhase.ready = false

unfoldable pub validate_identity_for : BootstrapState → BootstrapIdentity → M (Unit {0})
validate_identity_for state identity = do
  guard (state.schema_version == bootstrap_state_schema_version) wrong_schema
  guard (state.display_name == identity.display_name) wrong_display_name
  guard (state.install_name == identity.install_name) wrong_install_name
  guard (state.metadata_file == identity.metadata_file) wrong_metadata_file
  guard (is_installing state.state) invalid_phase

unfoldable pub remove : FilePath → M (Unit {0})
remove prefix = do remove_state_file (path prefix); remove_state_file (temporary_path prefix)

module _ (json : StateJson) where
  parse_state : Bytes → M (Option BootstrapState)
  parse_state data_ = do state ← from_option (json.parse data_) unparsable; return (some state)

  or_absent : Option Bytes → M (Option BootstrapState)
  or_absent none = return none
  or_absent (some data_) = parse_state data_

  or_temporary : FilePath → Option Bytes → M (Option BootstrapState)
  or_temporary temporary_path (some data_) = parse_state data_
  or_temporary temporary_path none = do found ← read_state_file temporary_path; or_absent found

  unfoldable pub read_state_at : FilePath → FilePath → M (Option BootstrapState)
  unfolding parse_state or_absent or_temporary
  read_state_at path temporary_path = do
    found ← read_state_file path
    or_temporary temporary_path found

  unfoldable pub read : FilePath → M (Option BootstrapState)
  read prefix = read_state_at (path prefix) (temporary_path prefix)

  -- What follows `create_dir_all`, on the two paths.
  unfoldable pub write_state_at : FilePath → FilePath → BootstrapState → M (Unit {0})
  write_state_at path temporary_path state = do
    remove_state_file temporary_path
    create temporary_path
    append temporary_path (json.render state)
    append temporary_path (b'\n' ∷ [])
    touch
    remove_state_file path
    rename temporary_path path

  unfoldable pub write_installing_for : FilePath → BootstrapIdentity → M (Unit {0})
  write_installing_for prefix identity = do
    create_dir_all prefix
    write_state_at (path prefix) (temporary_path prefix) (current installing identity)
