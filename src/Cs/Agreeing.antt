-- ===== src/Cs/Agreeing.antt =====
-- The checks of src/runtime_update.rs on a package of src/bin/cs/update_package.rs, one by one.
use conda_ship.Prelude.{
  ◌≤◌, true, Option, some, Text, Bytes, length, list_eq, option_eq, number_eq, ◌≡◌, refl, ap, sym,
  ◌∙◌,
}
use conda_ship.Fs.Checked.{accepted}
use conda_ship.Hash.{Digest}
use conda_ship.Http.{UrlLibrary, Url}
use conda_ship.RuntimeData.Binary.{max_u64}
use conda_ship.RuntimeData.Header.{RuntimeDataHeader, RuntimeUpdateConfig}
use conda_ship.RuntimeData.Result.{Result}
use conda_ship.RuntimeData.Stamping.{RuntimeData}
use conda_ship.RuntimeUpdate.Packages.{Conda, PackageRecord, SelectedPackage}
use conda_ship.RuntimeUpdate.Archive.{Tree, lookup, key, decimal, PackageFormat, IndexJson}
use conda_ship.RuntimeUpdate.Extracted.{
  read_stamped, validate_channel, validate_update_config, validate_payload_stamp,
  validate_extracted_candidate, same_identity, is_self_contained,
}
use conda_ship.Cs.UpdatePackage.{UpdatePackageOutput}
use conda_ship.Cs.Packaged.{IsPackaged}
use conda_ship.Cs.Matching.{IsAnnounced, identity_holds, stamp_holds, config_holds}
use conda_ship.Cs.Accepted.{index_bytes, read_index, extracted_lem, staged_lookup}
use conda_ship.Cs.Layout.{payload_key}

module _ (conda : Conda) (digest : Digest) (format : PackageFormat conda digest) (urls : UrlLibrary)
    (parse_url : Text → Option Url) (read_from_path : Bytes → Result (Option RuntimeData))
    (write_conda_package : Tree → Bytes) where
  module _ (header : RuntimeDataHeader) (binary : Bytes) (built : UpdatePackageOutput)
      (i : IsPackaged conda digest format urls parse_url read_from_path write_conda_package header
        binary built) where
    abbrev index : IndexJson conda
    index =
        read_index conda digest format urls parse_url read_from_path write_conda_package header
          binary i.platform i.name i.update.build_number built i.written i.version

    same_version : conda.show_version i.version ≡ header.runtime_version
    same_version = format.show-parse_version header.runtime_version i.version i.versioned

    identity_lem :
        (r : PackageRecord conda)
        → IsAnnounced conda r built
        → same_identity conda index r i.name (format.show_platform i.platform) ≡ true
    identity_lem r a =
        let version : some i.version ≡ some r.version =
          sym i.versioned ∙ (ap conda.parse_version (sym i.written.runtime_version) ∙ a.version) in
        let equal : i.version ≡ r.version = cc version in
        identity_holds conda index r i.name (format.show_platform i.platform) refl
          (a.name ∙ i.written.package_name)
          (ap (λ v. conda.version_eq i.version v) (sym equal) ∙ format.version_eq_refl i.version)
          (sym (a.build ∙ ap decimal i.written.numbered))
          (sym (a.build_number ∙ i.written.numbered)) refl (a.subdir ∙ i.written.shown_platform)
          refl a.depends

    index_lem :
        i.update.build_number ≤ max_u64
        → format.parse_index (
            index_bytes conda digest format urls parse_url read_from_path write_conda_package header
              binary i.platform i.name i.update.build_number built i.written)
          ≡ some index
    index_lem small =
        format.parse-render_index _ i.version
          (format.parse_name_again i.update.package_name i.name i.named) i.versioned small

    config_lem :
        validate_update_config conda (validate_channel urls parse_url) i.update ≡ accepted tt
    unfolding validate_update_config
    config_lem = rw (i.channel_valid, i.named) refl

    stamp_lem :
        (current : RuntimeDataHeader) (update : RuntimeUpdateConfig)
        → header.runtime_name ≡ current.runtime_name
        → header.artifact_name ≡ current.artifact_name
        → is_self_contained conda header.artifact_layout ≡ true
        → header.platform ≡ format.show_platform i.platform
        → i.update.channel ≡ update.channel
        → i.update.package_name ≡ update.package_name
        → validate_payload_stamp conda digest format urls parse_url read_from_path header current
            update index
            (format.show_platform i.platform)
          ≡ accepted tt
    unfolding validate_payload_stamp
    stamp_lem current update a b c d e f =
        rw
          (
            stamp_holds conda header current index (format.show_platform i.platform) a b
                (sym same_version) c d,
            i.configured,
            config_lem,
            config_holds conda i.update update index e f i.direct refl,
          )
          refl

  -- The checks of a package that was built, where the runtime agrees with its header.
  module _ (stamped : RuntimeData) (binary : Bytes) (built : UpdatePackageOutput)
      (i : IsPackaged conda digest format urls parse_url read_from_path write_conda_package
        stamped.header binary built) where
    pub agreeing :
        read_stamped read_from_path binary ≡ accepted stamped
        → length binary ≤ max_u64
        → i.update.build_number ≤ max_u64
        → (current : RuntimeDataHeader) → stamped.header.runtime_name ≡ current.runtime_name
        → stamped.header.artifact_name ≡ current.artifact_name
        → is_self_contained conda stamped.header.artifact_layout ≡ true
        → stamped.header.platform ≡ format.show_platform i.platform
        → (update : RuntimeUpdateConfig) → i.update.channel ≡ update.channel
        → i.update.package_name ≡ update.package_name
        → (candidate : SelectedPackage conda)
        → IsAnnounced conda candidate.repo_record.package_record built
        → (validate_extracted_candidate conda digest format urls parse_url read_from_path
              built.staged i.platform current update candidate
            ≡ accepted (key built.payload))
          × (lookup (key built.payload) built.staged ≡ some binary)
    agreeing read small bounded current a b layout platform update c n candidate announced =
        rw
          (
            i.written.payload,
            payload_key (format.is_windows i.platform) stamped.header.artifact_name i.written.plain,
          )
          (
            extracted_lem conda digest format urls parse_url read_from_path write_conda_package
                stamped.header binary i.platform i.name i.update.build_number built i.written
                i.version current update candidate stamped
                (index_lem stamped.header binary built i bounded) small
                (ap conda.parse_name (sym n) ∙ i.named)
                (identity_lem stamped.header binary built i candidate.repo_record.package_record
                  announced)
                read
                (stamp_lem stamped.header binary built i current update a b layout platform c n),
            staged_lookup conda digest format urls parse_url read_from_path write_conda_package
                stamped.header binary i.platform i.name i.update.build_number built i.written,
          )
