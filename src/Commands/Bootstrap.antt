-- ===== src/Commands/Bootstrap.antt =====
-- The installation of a prefix: `ensure_bootstrapped` and `bootstrap` of src/commands.rs. Solving,
-- downloading and linking are parameters.
use conda_ship.Prelude.{
  Bool, true, false, not, ◌&&◌, Option, none, some, List, Text, Bytes, codes, is_some, is_empty,
  map, to_ascii_lowercase, ◌==◌, list_eq, number_eq,
}
use conda_ship.Fs.FilePath.{FilePath}
use conda_ship.Fs.Failure.{unmanaged, no_lock, bundle_missing}
use conda_ship.Fs.Calls.{M, ◌>>=◌, ◌>>◌, return, guard, exists, is_dir}
use conda_ship.RuntimeData.Header.{RuntimeUpdateConfig}
use conda_ship.Config.Store.{invalidate_metadata_for}
use conda_ship.Config.Initial.{
  PrefixMetadataIdentity, write_metadata_for_identity, write_condarc, write_frozen_with_message,
}
use conda_ship.BootstrapState.Marker.{write_installing_for, remove}
use conda_ship.ExecutableUpdate.Stamp.{acquire}
use conda_ship.Commands.Delegate.{validate_delegate}
use conda_ship.Commands.Disposition.{
  ManagedPrefixIdentity, bootstrap_identity, PrefixDisposition, Surroundings, is_empty_dir,
  prefix_disposition_for,
}

-- What the stamp of the running executable says of the runtime to install.
pub record Distribution : Type 0 where
  pub display_name : Text
  pub install_name : Text
  pub metadata_file : Text
  pub runtime_version : Text
  pub delegate_executable : Text
  pub update : Option RuntimeUpdateConfig
  pub channels : List Text
  pub packages : List Text
  pub condarc : Option Bytes
  pub frozen : Option Bytes
  pub lock : Option Text

-- The installers of src/install.rs, which call the rattler libraries. Each takes whether every
-- package is installed again.
pub record Installers : Type 0 where
  pub from_bundle : FilePath → Bool → Bool → M (Unit {0})
  pub from_embedded : Option (Bool → M (Unit {0}))
  pub from_cache : Bool → M (Unit {0})
  pub from_channels : Bool → M (Unit {0})
  pub write_prefix_metadata : M (Unit {0})
  pub compile_python_bytecode : M (Unit {0})

unfoldable pub embedded_prefix_identity : Distribution → ManagedPrefixIdentity
embedded_prefix_identity d = record {
  display_name = d.display_name;
  install_name = d.install_name;
  metadata_file = d.metadata_file;
  expected_delegate = some d.delegate_executable;
}

-- A flag in the environment: set, not empty, and neither 0 nor false.
unfoldable pub configured_offline : Option Text → Bool
configured_offline none = false
configured_offline (some value) =
    not (is_empty value)
    && (not (value == codes "0") && not (map to_ascii_lowercase value == codes "false"))

unfoldable pub configured_bundle : Option FilePath → M (Option FilePath)
configured_bundle none = return none
configured_bundle (some path) = do
  present ← is_dir path
  guard present bundle_missing
  return (some path)

-- The branch on where the packages come from.
packages_from :
    Installers → Option FilePath → Option (Bool → M (Unit {0})) → Bool → Bool → M (Unit {0})
packages_from by (some bundle_dir) embedded offline reinstall =
    by.from_bundle bundle_dir offline reinstall
packages_from by none (some embedded) offline reinstall = embedded reinstall
packages_from by none none true reinstall = by.from_cache reinstall
packages_from by none none false reinstall = by.from_channels reinstall

unfoldable pub put_packages : Installers → Option FilePath → Bool → Bool → M (Unit {0})
unfolding packages_from
put_packages by bundle offline reinstall = do
  packages_from by bundle by.from_embedded offline reinstall
  by.write_prefix_metadata

if_configured : (Bytes → M (Unit {0})) → Option Bytes → M (Unit {0})
if_configured write none = return tt
if_configured write (some contents) = write contents

unfoldable pub write_configured_policy : FilePath → Option Bytes → Option Bytes → M (Unit {0})
unfolding if_configured
write_configured_policy prefix condarc frozen = do
  if_configured (write_condarc prefix) condarc
  if_configured (write_frozen_with_message prefix) frozen

unfoldable pub metadata_identity : Distribution → PrefixMetadataIdentity
metadata_identity d = record {
  display_name = d.display_name;
  install_name = d.install_name;
  metadata_file = d.metadata_file;
  version = d.runtime_version;
  delegate_executable = some d.delegate_executable;
  lock_sha256 = none;
  update = d.update;
}

module _ (around : Surroundings) (by : Installers) (d : Distribution) (prefix : FilePath) where
  -- A prefix that is not to be installed again must be free.
  must_be_free : Bool → M (Unit {0})
  must_be_free true = return tt
  must_be_free false = do
    present ← exists prefix
    elim present [
      | false ↦ return tt
      | true ↦ (do vacant ← is_empty_dir around prefix; guard vacant unmanaged)
    ]

  -- What follows the checks.
  unfoldable pub install_over : Option FilePath → Bool → Bool → M (Unit {0})
  unfolding embedded_prefix_identity metadata_identity
  install_over bundle offline reinstall = do
    write_installing_for around.state_json prefix (bootstrap_identity (embedded_prefix_identity d))
    invalidate_metadata_for prefix d.metadata_file
    put_packages by bundle offline reinstall
    write_configured_policy prefix d.condarc d.frozen
    by.compile_python_bytecode
    validate_delegate prefix d.delegate_executable
    write_metadata_for_identity around.json prefix (metadata_identity d) d.channels d.packages
    remove prefix

  unfoldable pub bootstrap_prefix : Option FilePath → Bool → Bool → M (Unit {0})
  unfolding must_be_free
  bootstrap_prefix bundle offline reinstall = do
    must_be_free reinstall
    guard (is_some d.lock) no_lock
    install_over bundle offline reinstall

  unless_ready : Option FilePath → Option Text → PrefixDisposition → M (Unit {0})
  unless_ready bundle offline PrefixDisposition.ready = return tt
  unless_ready bundle offline (PrefixDisposition.bootstrap reinstall) = do
    dir ← configured_bundle bundle
    bootstrap_prefix dir (configured_offline offline) reinstall

  -- The two arguments are the values of the environment.
  unfoldable pub ensure_bootstrapped : Option FilePath → Option Text → M (Unit {0})
  unfolding unless_ready configured_bundle configured_offline
  ensure_bootstrapped bundle offline = do
    acquire prefix
    disposition ← prefix_disposition_for around prefix (embedded_prefix_identity d) true
    unless_ready bundle offline disposition
