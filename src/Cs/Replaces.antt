-- ===== src/Cs/Replaces.antt =====
-- An update package of src/bin/cs/update_package.rs, from the artifact info that cs recorded to the
-- checks of src/runtime_update.rs in the runtime that it replaces.
use conda_ship.Prelude.{
  ◌≤◌, Bool, true, Option, some, Text, Bytes, length, list_eq, option_eq, number_eq, ◌≡◌, ap, sym,
  ◌∙◌,
}
use conda_ship.Fs.Checked.{accepted, bind_passed}
use conda_ship.Hash.{Digest}
use conda_ship.Http.{UrlLibrary, Url}
use conda_ship.RuntimeData.Binary.{max_u64}
use conda_ship.RuntimeData.Header.{RuntimeDataHeader, RuntimeUpdateConfig}
use conda_ship.RuntimeData.Result.{Result}
use conda_ship.RuntimeData.Stamping.{RuntimeData}
use conda_ship.RuntimeUpdate.Packages.{Conda, SelectedPackage}
use conda_ship.RuntimeUpdate.Archive.{Tree, lookup, key, PackageFormat}
use conda_ship.RuntimeUpdate.Extracted.{
  read_stamped, validate_extracted_candidate, is_self_contained,
}
use conda_ship.Cs.ArtifactInfo.{
  ArtifactInfo, same_config, validate_info, validate_stamp, is_update_layout,
}
use conda_ship.Cs.UpdatePackage.{UpdatePackageOutput, validate_recorded, package_update}
use conda_ship.Cs.Packaged.{IsPackaged, package_stamped-IsPackaged}
use conda_ship.Cs.Matching.{IsAnnounced}
use conda_ship.Cs.Compared.{
  IsDescribed, same_names-IsDescribed, config_fields, stamp_compared, info_layout,
}
use conda_ship.Cs.Agreeing.{agreeing}

module _ (conda : Conda) (digest : Digest) (format : PackageFormat conda digest) (urls : UrlLibrary)
    (parse_url : Text → Option Url) (read_from_path : Bytes → Result (Option RuntimeData))
    (write_conda_package : Tree → Bytes) where
  -- What a successful `package_update` has found.
  record IsBuilt (info : ArtifactInfo) (binary : Bytes) (built : UpdatePackageOutput) : Type 0 where
    stamped : RuntimeData
    stamp_read : read_stamped read_from_path binary ≡ accepted stamped
    described : IsDescribed stamped.header info
    same_update : same_config stamped.header.update info.update ≡ true
    layout_known : is_update_layout info.layout ≡ true
    packaged :
        IsPackaged conda digest format urls parse_url read_from_path write_conda_package
          stamped.header binary built

  package_update-IsBuilt :
      (overridden : Bool) (info : ArtifactInfo) (binary : Bytes) (is_taken : Text → Bool)
      (built : UpdatePackageOutput)
      → package_update conda digest format urls parse_url read_from_path write_conda_package
          overridden info binary is_taken
        ≡ accepted built
      → IsBuilt info binary built
  unfolding package_update
  package_update-IsBuilt overridden info binary is_taken built h =
      let (_, (checked, h1)) = bind_passed (validate_info info) _ h in
      let (_, (_, h2)) =
        bind_passed
          (validate_recorded conda digest format urls parse_url read_from_path write_conda_package
            overridden info binary)
          _ h1 in
      let (stamped, (read, h3)) = bind_passed (read_stamped read_from_path binary) _ h2 in
      let (_, (compared, h4)) = bind_passed (validate_stamp digest info binary stamped) _ h3 in
      let (names, configs) = stamp_compared digest info binary stamped compared in
      record {
        stamped = stamped;
        stamp_read = read;
        described = same_names-IsDescribed stamped.header info names;
        same_update = configs;
        layout_known = info_layout info checked;
        packaged =
            package_stamped-IsPackaged conda digest format urls parse_url read_from_path
              write_conda_package stamped.header binary is_taken built h4;
      }

  -- A package that cs builds of an executable is accepted by every runtime of the same names,
  -- update channel and package, on the platform that it was built for, if the channel announces the
  -- package as it is; and the executable that is then installed is the one that was packaged. The
  -- sizes and numbers fit in 64 bits.
  pub package_update-accepted :
      (overridden : Bool) (info : ArtifactInfo) (binary : Bytes) (is_taken : Text → Bool)
      (built : UpdatePackageOutput)
      → package_update conda digest format urls parse_url read_from_path write_conda_package
          overridden info binary is_taken
        ≡ accepted built
      → length binary ≤ max_u64
      → (u : RuntimeUpdateConfig) → info.update ≡ some u
      → u.build_number ≤ max_u64
      → (here : format.Platform) → info.platform ≡ format.show_platform here
      → (current : RuntimeDataHeader) → current.runtime_name ≡ info.runtime_name
      → current.artifact_name ≡ info.artifact_name
      → (update : RuntimeUpdateConfig) → update.channel ≡ u.channel
      → update.package_name ≡ u.package_name
      → (candidate : SelectedPackage conda)
      → IsAnnounced conda candidate.repo_record.package_record built
      → (validate_extracted_candidate conda digest format urls parse_url read_from_path built.staged
            here current update candidate
          ≡ accepted (key built.payload))
        × (lookup (key built.payload) built.staged ≡ some binary)
  package_update-accepted overridden info binary is_taken built h small u configured bounded here
        on_here current runtime_name artifact_name update channel package_name candidate announced =
      settle here on_here update channel package_name candidate announced
        (package_update-IsBuilt overridden info binary is_taken built h)
    where
      settle :
          (here : format.Platform)
          → info.platform ≡ format.show_platform here
          → (update : RuntimeUpdateConfig) → update.channel ≡ u.channel
          → update.package_name ≡ u.package_name
          → (candidate : SelectedPackage conda)
          → IsAnnounced conda candidate.repo_record.package_record built
          → IsBuilt info binary built
          → (validate_extracted_candidate conda digest format urls parse_url read_from_path
                built.staged here current update candidate
              ≡ accepted (key built.payload))
            × (lookup (key built.payload) built.staged ≡ some binary)
      settle here on_here update channel package_name candidate announced b =
          let i = b.packaged in
          let (c, n, k) = config_fields i.update u (
            sym (ap (λ o. same_config o (some u)) i.configured)
            ∙ (ap (λ o. same_config b.stamped.header.update o) (sym configured) ∙ b.same_update)) in
          let platform : some i.platform ≡ some here =
            sym i.on_platform
            ∙ (ap format.parse_platform (b.described.platform ∙ on_here)
                ∙ format.parse-show_platform here) in
          let same : here ≡ i.platform = cc platform in
          rw same (
            agreeing conda digest format urls parse_url read_from_path write_conda_package b.stamped
              binary built i b.stamp_read small (rw k bounded) current
              (b.described.runtime_name ∙ sym runtime_name)
              (b.described.artifact_name ∙ sym artifact_name)
              (ap (λ l. is_self_contained conda l) b.described.layout ∙ b.layout_known)
              (b.described.platform ∙ (on_here ∙ ap format.show_platform same)) update
              (c ∙ sym channel) (n ∙ sym package_name) candidate announced)
