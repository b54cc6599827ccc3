-- ===== src/Config/Initial.antt =====
-- The metadata of a new installation, and the files of its policy: `write_metadata_for_identity`,
-- `write_condarc` and `write_frozen_with_message` of src/config.rs.
use conda_ship.Prelude.{false, Option, none, List, [], Text, Bytes, codes}
use mathlib.Core.Option
use conda_ship.Fs.FilePath.{FilePath, join}
use conda_ship.Fs.Calls.{M, ◌>>◌, create, append, touch}
use conda_ship.RuntimeData.Header.{RuntimeUpdateConfig, initial_ownership, initial_instruction}
use conda_ship.Config.Metadata.{
  BootstrapPhase, ExecutableUpdateMetadata, PrefixMetadata, prefix_metadata_schema_version,
}
use conda_ship.Config.Store.{Json, persist_metadata_for}

unfoldable pub from_config : RuntimeUpdateConfig → ExecutableUpdateMetadata
unfolding initial_ownership initial_instruction
from_config update = record {
  executable = record { rooted = false; parts = [] };
  ownership = initial_ownership update;
  installation = none;
  artifact_name = [];
  channel = update.channel;
  package_name = update.package_name;
  build_number = update.build_number;
  sha256 = [];
  instruction = initial_instruction update;
  pending = none;
}

pub record PrefixMetadataIdentity : Type 0 where
  pub display_name : Text
  pub install_name : Text
  pub metadata_file : Text
  pub version : Text
  pub delegate_executable : Option Text
  pub lock_sha256 : Option Text
  pub update : Option RuntimeUpdateConfig

-- The record that `write_metadata_for_identity` builds.
unfoldable pub metadata_for : PrefixMetadataIdentity → List Text → List Text → PrefixMetadata
unfolding from_config
metadata_for identity channels packages = record {
  schema_version = prefix_metadata_schema_version;
  display_name = identity.display_name;
  install_name = identity.install_name;
  metadata_file = identity.metadata_file;
  version = identity.version;
  delegate_executable = identity.delegate_executable;
  lock_sha256 = identity.lock_sha256;
  channels = channels;
  packages = packages;
  bootstrap_state = BootstrapPhase.ready;
  update = Option.map from_config identity.update;
}

unfoldable pub write_metadata_for_identity :
    Json → FilePath → PrefixMetadataIdentity → List Text → List Text → M (Unit {0})
write_metadata_for_identity json prefix identity channels packages =
    persist_metadata_for json prefix identity.metadata_file
      (metadata_for identity channels packages)

-- `std::fs::write`
unfoldable pub write_file : FilePath → Bytes → M (Unit {0})
write_file p contents = do create p; append p contents

unfoldable pub condarc_path : FilePath → FilePath
condarc_path prefix = join prefix (codes ".condarc")

unfoldable pub frozen_path : FilePath → FilePath
frozen_path prefix = join (join prefix (codes "conda-meta")) (codes "frozen")

-- The contents are the bytes of the text.
unfoldable pub write_condarc : FilePath → Bytes → M (Unit {0})
write_condarc prefix contents = do touch; write_file (condarc_path prefix) contents

-- The rendered JSON is given.
unfoldable pub write_frozen_with_message : FilePath → Bytes → M (Unit {0})
write_frozen_with_message prefix rendered = do touch; write_file (frozen_path prefix) rendered
