-- ===== src/Cs/Compared.antt =====
-- What the checks of an executable against its artifact info show: src/bin/cs/update_package.rs.
use conda_ship.Prelude.{
  true, some, Bytes, ◌==◌, list_eq, option_eq, number_eq, nat_eq, ◌≡◌, ==-eq, &&-eq-true,
}
use conda_ship.Fs.Checked.{accepted, require_passed}
use conda_ship.Hash.{Digest}
use conda_ship.RuntimeData.Header.{RuntimeDataHeader, RuntimeUpdateConfig}
use conda_ship.RuntimeData.Stamping.{RuntimeData}
use conda_ship.Cs.ArtifactInfo.{
  ArtifactInfo, config_beq, same_config, same_names, validate_info, validate_stamp,
  is_update_layout,
}

-- A header with the fields of the artifact info that it was compared with.
pub record IsDescribed (header : RuntimeDataHeader) (info : ArtifactInfo) : Type 0 where
  pub runtime_name : header.runtime_name ≡ info.runtime_name
  pub artifact_name : header.artifact_name ≡ info.artifact_name
  pub layout : header.artifact_layout ≡ info.layout
  pub platform : header.platform ≡ info.platform

pub same_names-IsDescribed :
    (header : RuntimeDataHeader) (info : ArtifactInfo)
    → same_names header info ≡ true
    → IsDescribed header info
unfolding same_names
same_names-IsDescribed header info h =
    let (a, h1) = &&-eq-true {a = header.runtime_name == info.runtime_name} h in
    let (b, h2) = &&-eq-true {a = header.artifact_name == info.artifact_name} h1 in
    let (_, h3) = &&-eq-true {a = header.runtime_version == info.runtime_version} h2 in
    let (c, d) = &&-eq-true {a = header.artifact_layout == info.layout} h3 in
    record {
      runtime_name = ==-eq header.runtime_name info.runtime_name a;
      artifact_name = ==-eq header.artifact_name info.artifact_name b;
      layout = ==-eq header.artifact_layout info.layout c;
      platform = ==-eq header.platform info.platform d;
    }

pub config_fields :
    (a b : RuntimeUpdateConfig)
    → same_config (some a) (some b) ≡ true
    → (a.channel ≡ b.channel)
      × (a.package_name ≡ b.package_name)
      × (a.build_number ≡ b.build_number)
unfolding same_config config_beq
config_fields a b h =
    let (c, h1) = &&-eq-true {a = a.channel == b.channel} h in
    let (n, h2) = &&-eq-true {a = a.package_name == b.package_name} h1 in
    let (k, _) = &&-eq-true {a = nat_eq a.build_number b.build_number} h2 in
    (
      ==-eq a.channel b.channel c,
      ==-eq a.package_name b.package_name n,
      ==-eq a.build_number b.build_number k,
    )

pub stamp_compared :
    (digest : Digest) (info : ArtifactInfo) (file : Bytes) (stamped : RuntimeData)
    → validate_stamp digest info file stamped ≡ accepted tt
    → (same_names stamped.header info ≡ true)
      × (same_config stamped.header.update info.update ≡ true)
unfolding validate_stamp
stamp_compared digest info file stamped h =
    let (a, g) = require_passed (same_names stamped.header info) _ _ h in
    let (b, _) = require_passed (same_config stamped.header.update info.update) _ _ g in (a, b)

pub info_layout :
    (info : ArtifactInfo) → validate_info info ≡ accepted tt → is_update_layout info.layout ≡ true
unfolding validate_info
info_layout info h =
    let (_, g) = require_passed (nat_eq info.schema_version 1) _ _ h in
    let (b, _) = require_passed (is_update_layout info.layout) _ _ g in b
