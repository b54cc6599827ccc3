-- ===== src/Cs/UpdatePackage.antt =====
-- The update package that cs builds of a finished runtime: `package_update` and
-- `stage_package_contents` of src/bin/cs/update_package.rs. What the two input files hold, and which
-- names are taken in the output directory, are arguments; the archive is written by a parameter.
use conda_ship.Prelude.{
  ℕ, Bool, true, false, not, Option, [], ◌∷◌, ◌++◌, Text, Bytes, codes, length,
}
use conda_ship.Fs.Failure.{
  not_configured, externally_managed, invalid_package_name, invalid_version, wrong_platform,
  already_exists,
}
use conda_ship.Fs.Checked.{Checked, accepted, ◌>>=◌, ◌>>◌, require, need}
use conda_ship.Hash.{Digest, hex}
use conda_ship.Http.{UrlLibrary, Url}
use conda_ship.RuntimeData.Header.{RuntimeDataHeader, supports_direct_update}
use conda_ship.RuntimeData.Result.{Result}
use conda_ship.RuntimeData.Stamping.{RuntimeData}
use conda_ship.RuntimeUpdate.Packages.{Conda}
use conda_ship.RuntimeUpdate.Archive.{Tree, key, decimal, PackageFormat}
use conda_ship.RuntimeUpdate.Extracted.{read_stamped, validate_channel}
use conda_ship.Cs.ArtifactInfo.{
  ArtifactInfo, validate_info, validate_stamp, validate_recorded_binary_checksum,
  validate_plain_filename,
}

-- `UpdatePackageOutput`, with the staged tree that the archive is made of.
pub record UpdatePackageOutput : Type 0 where
  pub filename : Text
  pub package_name : Text
  pub runtime_version : Text
  pub build_number : ℕ
  pub platform : Text
  pub sha256 : Text
  pub size : ℕ
  pub payload_sha256 : Text
  pub payload_size : ℕ
  pub payload : Text
  pub staged : Tree

abbrev pub payload_name : Bool → Text → Text
payload_name true artifact_name = artifact_name ++ codes ".exe"
payload_name false artifact_name = codes "bin/" ++ artifact_name

abbrev pub package_stem : Text → Text → ℕ → Text
package_stem package_name runtime_version build_number =
    package_name ++ (codes "-" ++ (runtime_version ++ (codes "-" ++ decimal build_number)))

module _ (conda : Conda) (digest : Digest) (format : PackageFormat conda digest) (urls : UrlLibrary)
    (parse_url : Text → Option Url) (read_from_path : Bytes → Result (Option RuntimeData))
    (write_conda_package : Tree → Bytes) where
  -- The files that are written, the last one first.
  unfoldable pub contents_of : Text → Text → Bytes → Text → format.Platform → Text → Text → ℕ → Tree
  contents_of arch platform_name binary payload platform package_name runtime_version build_number =
      (
        key (codes "info/paths.json"),
        format.render_paths (record {
          relative_path = payload;
          path_type = codes "hardlink";
          sha256 = hex (digest.sha256 binary);
          size_in_bytes = length binary;
          paths_version = 1;
        }),
      )
      ∷ (key (codes "info/files"), payload ++ codes "\n")
      ∷ (
        key (codes "info/index.json"),
        format.render_index (record {
          arch = arch;
          name = package_name;
          version = runtime_version;
          build = decimal build_number;
          build_number = build_number;
          depends = [];
          platform = platform_name;
          subdir = format.show_platform platform;
        }),
      )
      ∷ (key payload, binary)
      ∷ []

  unfoldable pub stage_package_contents :
      Bytes → Text → format.Platform → Text → Text → ℕ → Checked Tree
  unfolding contents_of
  stage_package_contents binary payload platform package_name runtime_version build_number = do
    package_platform ← need (format.only_platform platform) wrong_platform
    package_arch ← need (format.arch platform) wrong_platform
    accepted (
        contents_of package_arch package_platform binary payload platform package_name
          runtime_version build_number)

  unfoldable pub output :
      RuntimeDataHeader → Bytes → format.Platform → Text → ℕ → Text → Tree → UpdatePackageOutput
  output header binary platform package_name build_number filename staged = record {
    filename = filename;
    package_name = package_name;
    runtime_version = header.runtime_version;
    build_number = build_number;
    platform = format.show_platform platform;
    sha256 = hex (digest.sha256 (write_conda_package staged));
    size = length (write_conda_package staged);
    payload_sha256 = hex (digest.sha256 binary);
    payload_size = length binary;
    payload = payload_name (format.is_windows platform) header.artifact_name;
    staged = staged;
  }

  -- From the check of the artifact's name to the end.
  unfoldable pub write_package :
      RuntimeDataHeader
      → Bytes
      → (Text → Bool)
      → format.Platform
      → Text
      → ℕ
      → Checked UpdatePackageOutput
  unfolding stage_package_contents output
  write_package header binary is_taken platform package_name build_number = do
    validate_plain_filename header.artifact_name
    let filename = package_stem package_name header.runtime_version build_number ++ codes ".conda"
    validate_plain_filename filename
    require (not (is_taken filename)) already_exists
    staged ←
        stage_package_contents binary
          (payload_name (format.is_windows platform) header.artifact_name) platform package_name
          header.runtime_version build_number
    accepted (output header binary platform package_name build_number filename staged)

  -- What follows the checks against the artifact info.
  unfoldable pub package_stamped :
      RuntimeDataHeader → Bytes → (Text → Bool) → Checked UpdatePackageOutput
  unfolding write_package
  package_stamped header binary is_taken = do
    update ← need header.update not_configured
    require (supports_direct_update update) externally_managed
    validate_channel urls parse_url update.channel
    package_name ← need (conda.parse_name update.package_name) invalid_package_name
    _ ← need (conda.parse_version header.runtime_version) invalid_version
    platform ← need (format.parse_platform header.platform) wrong_platform
    require (not (format.is_no_native platform)) wrong_platform
    write_package header binary is_taken platform package_name update.build_number

  -- A binary that was named on the command line need not be the recorded one.
  unfoldable pub validate_recorded : Bool → ArtifactInfo → Bytes → Checked (Unit {0})
  validate_recorded true info binary = accepted tt
  validate_recorded false info binary =
      validate_recorded_binary_checksum info (hex (digest.sha256 binary)) (length binary)

  -- `binary_override.is_some()`, the artifact info, and the snapshot of the executable.
  unfoldable pub package_update :
      Bool → ArtifactInfo → Bytes → (Text → Bool) → Checked UpdatePackageOutput
  unfolding validate_recorded package_stamped
  package_update overridden info binary is_taken = do
    validate_info info
    validate_recorded overridden info binary
    stamped ← read_stamped read_from_path binary
    validate_stamp digest info binary stamped
    package_stamped stamped.header binary is_taken
