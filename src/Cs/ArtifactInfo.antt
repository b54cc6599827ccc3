-- ===== src/Cs/ArtifactInfo.antt =====
-- What cs records of the artifacts that it built, and the checks of an executable against it:
-- src/bin/cs/artifact.rs and src/bin/cs/update_package.rs.
use conda_ship.Prelude.{
  ℕ, Bool, true, false, not, ◌&&◌, ◌||◌, Option, none, some, List, [], ◌∷◌, Text, Bytes, codes,
  contains, is_some, nat_eq, is_empty, ◌==◌, list_eq, option_eq, number_eq, if◌then◌else◌,
}
use conda_ship.Fs.Failure.{
  wrong_schema, wrong_layout, not_configured, invalid_filename, stamp_mismatch, bundle_corrupt,
  bundle_missing, digest_missing, digest_mismatch,
}
use conda_ship.Fs.Checked.{Checked, rejected, ◌>>=◌, ◌>>◌, require, need}
use conda_ship.Hash.{Digest}
use conda_ship.RuntimeData.Binary.{read_exact}
use conda_ship.RuntimeData.Header.{RuntimeDataHeader, RuntimeUpdateConfig, ownership_eq}
use conda_ship.RuntimeData.Result.{ok, err}
use conda_ship.RuntimeData.Stamping.{RuntimeData, EmbeddedBundle}
use conda_ship.RuntimeUpdate.Archive.{Component, path_components, is_normal}

pub record ArtifactChecksum : Type 0 where
  pub path : Text
  pub sha256 : Text
  pub bytes : ℕ

pub record ArtifactInfo : Type 0 where
  pub schema_version : ℕ
  pub name : Text
  pub artifact_name : Text
  pub runtime_name : Text
  pub runtime_version : Text
  pub layout : Text
  pub platform : Text
  pub update : Option RuntimeUpdateConfig
  pub binary : Text
  pub bundle : Option Text
  pub lock : Text
  pub package_list : Text
  pub sbom : Option Text
  pub package_count : ℕ
  pub checksums : List ArtifactChecksum

-- `PartialEq` of `RuntimeUpdateConfig`
unfoldable pub config_beq : RuntimeUpdateConfig → RuntimeUpdateConfig → Bool
config_beq a b =
    (a.channel == b.channel)
    && ((a.package_name == b.package_name)
        && (nat_eq a.build_number b.build_number
            && ((a.compatibility_ownership == b.compatibility_ownership)
                && (a.compatibility_instruction == b.compatibility_instruction))))

unfoldable pub same_config : Option RuntimeUpdateConfig → Option RuntimeUpdateConfig → Bool
unfolding config_beq
same_config none none = true
same_config (some a) (some b) = config_beq a b
same_config _ _ = false

-- One component, which is an ordinary name.
abbrev pub is_one_name : List Component → Bool
is_one_name [] = false
is_one_name (c ∷ []) = is_normal c
is_one_name (_ ∷ _ ∷ _) = false

unfoldable pub validate_plain_filename : Text → Checked (Unit {0})
validate_plain_filename value =
    require
      (not (
        is_empty value
        || (contains b'/' value
            || (contains b'\\' value || not (is_one_name (path_components value))))))
      invalid_filename

abbrev pub is_update_layout : Text → Bool
is_update_layout layout = (layout == codes "online") || (layout == codes "embedded")

unfoldable pub validate_info : ArtifactInfo → Checked (Unit {0})
unfolding validate_plain_filename
validate_info info = do
  require (nat_eq info.schema_version 1) wrong_schema
  require (is_update_layout info.layout) wrong_layout
  require (is_some info.update) not_configured
  validate_plain_filename info.binary

-- `EmbeddedBundle::verify`: the range of the file with its digest.
unfoldable pub verify : Digest → Bytes → EmbeddedBundle → Bool
verify digest file bundle = elim (read_exact file bundle.offset bundle.len) [
  | err _ ↦ false
  | ok content ↦ digest.sha256 content == bundle.sha256
]

unfoldable pub validate_layout : Digest → Bytes → Text → Option EmbeddedBundle → Checked (Unit {0})
validate_layout digest file layout bundle =
    if layout == codes "online"
    then require (not (is_some bundle)) stamp_mismatch
    else if layout == codes "embedded"
    then (need bundle bundle_missing >>= λ b. require (verify digest file b) bundle_corrupt)
    else rejected wrong_layout

unfoldable pub same_names : RuntimeDataHeader → ArtifactInfo → Bool
same_names header info =
    (header.runtime_name == info.runtime_name)
    && ((header.artifact_name == info.artifact_name)
        && ((header.runtime_version == info.runtime_version)
            && ((header.artifact_layout == info.layout) && (header.platform == info.platform))))

unfoldable pub validate_stamp : Digest → ArtifactInfo → Bytes → RuntimeData → Checked (Unit {0})
unfolding same_names same_config validate_layout verify
validate_stamp digest info file stamped = do
  require (same_names stamped.header info) stamp_mismatch
  require (same_config stamped.header.update info.update) stamp_mismatch
  validate_layout digest file info.layout stamped.bundle

-- `find`, by the path of the recorded binary.
find : Text → List ArtifactChecksum → Option ArtifactChecksum
find path [] = none
find path (c ∷ rest) = let further = find path rest in if c.path == path then some c else further

unfoldable pub validate_recorded_binary_checksum : ArtifactInfo → Text → ℕ → Checked (Unit {0})
unfolding find
validate_recorded_binary_checksum info actual_sha256 actual_size = do
  expected ← need (find info.binary info.checksums) digest_missing
  require ((expected.sha256 == actual_sha256) && nat_eq expected.bytes actual_size) digest_mismatch
