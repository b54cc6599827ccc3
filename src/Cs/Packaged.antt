-- ===== src/Cs/Packaged.antt =====
-- What `package_update` of src/bin/cs/update_package.rs has checked when it succeeds, and the files
-- that the package then holds.
use conda_ship.Prelude.{
  ℕ, Bool, true, not, ◌++◌, Option, some, Text, Bytes, codes, list_eq, number_eq, ◌≡◌, ap, sym, ◌∙◌,
}
use conda_ship.Fs.Failure.{
  not_configured, externally_managed, invalid_package_name, invalid_version, wrong_platform,
  already_exists,
}
use conda_ship.Fs.Checked.{
  Checked, accepted, ◌>>=◌, ◌>>◌, require, require_passed, need_passed, bind_passed, accepted_eq,
}
use conda_ship.Hash.{Digest}
use conda_ship.Http.{UrlLibrary, Url}
use conda_ship.RuntimeData.Header.{RuntimeDataHeader, RuntimeUpdateConfig, supports_direct_update}
use conda_ship.RuntimeData.Result.{Result}
use conda_ship.RuntimeData.Stamping.{RuntimeData}
use conda_ship.RuntimeUpdate.Packages.{Conda}
use conda_ship.RuntimeUpdate.Archive.{Tree, PackageFormat}
use conda_ship.RuntimeUpdate.Extracted.{validate_channel}
use conda_ship.Cs.ArtifactInfo.{validate_plain_filename}
use conda_ship.Cs.UpdatePackage.{
  UpdatePackageOutput, package_stem, payload_name, contents_of, stage_package_contents, output,
  write_package, package_stamped,
}
use conda_ship.Cs.PlainNames.{IsPlain, validate_plain_filename-IsPlain}

module _ (conda : Conda) (digest : Digest) (format : PackageFormat conda digest) (urls : UrlLibrary)
    (parse_url : Text → Option Url) (read_from_path : Bytes → Result (Option RuntimeData))
    (write_conda_package : Tree → Bytes) where
  -- What a package holds, of a runtime with this header.
  pub record IsWritten (header : RuntimeDataHeader) (binary : Bytes) (platform : format.Platform)
      (name : Text) (build_number : ℕ) (built : UpdatePackageOutput) : Type 0 where
    pub plain : IsPlain header.artifact_name
    pub os : Text
    pub arch : Text
    pub payload : built.payload ≡ payload_name (format.is_windows platform) header.artifact_name
    pub package_name : built.package_name ≡ name
    pub runtime_version : built.runtime_version ≡ header.runtime_version
    pub numbered : built.build_number ≡ build_number
    pub shown_platform : built.platform ≡ format.show_platform platform
    pub staged :
        built.staged
        ≡ contents_of conda digest format urls parse_url read_from_path write_conda_package arch os
            binary
            (payload_name (format.is_windows platform) header.artifact_name)
            platform
            name
            header.runtime_version
            build_number

  staged_lem :
      (binary : Bytes) (payload : Text) (platform : format.Platform) (name version : Text)
      (build_number : ℕ) (staged : Tree)
      → stage_package_contents conda digest format urls parse_url read_from_path write_conda_package
          binary payload platform name version build_number
        ≡ accepted staged
      → (os arch : Text) × (staged
          ≡ contents_of conda digest format urls parse_url read_from_path write_conda_package arch
              os binary payload platform name version build_number)
  unfolding stage_package_contents
  staged_lem binary payload platform name version build_number staged h =
      let (os, (_, g)) = need_passed (format.only_platform platform) wrong_platform _ h in
      let (arch, (_, k)) = need_passed (format.arch platform) wrong_platform _ g in
      (os, arch, sym (accepted_eq _ staged k))

  module _ (header : RuntimeDataHeader) (binary : Bytes) (is_taken : Text → Bool)
      (platform : format.Platform) (name : Text) (build_number : ℕ)
      (built : UpdatePackageOutput) where
    abbrev file_name : Text
    file_name = package_stem name header.runtime_version build_number ++ codes ".conda"

    abbrev staging : Checked Tree
    staging =
        stage_package_contents conda digest format urls parse_url read_from_path write_conda_package
          binary (payload_name (format.is_windows platform) header.artifact_name) platform name
          header.runtime_version build_number

    abbrev answer : Tree → UpdatePackageOutput
    answer staged =
        output conda digest format urls parse_url read_from_path write_conda_package header binary
          platform name build_number file_name staged

    from_staged :
        (staged : Tree)
        → IsPlain header.artifact_name
        → staging ≡ accepted staged
        → answer staged ≡ built
        → IsWritten header binary platform name build_number built
    unfolding output
    from_staged staged plain h same =
        let (os, arch, e) =
          staged_lem binary _ platform name header.runtime_version build_number staged h in
        record {
          plain = plain;
          os = os;
          arch = arch;
          payload = ap (λ b. b.payload) (sym same);
          package_name = ap (λ b. b.package_name) (sym same);
          runtime_version = ap (λ b. b.runtime_version) (sym same);
          numbered = ap (λ b. b.build_number) (sym same);
          shown_platform = ap (λ b. b.platform) (sym same);
          staged = ap (λ b. b.staged) (sym same) ∙ e;
        }

    past_names :
        IsPlain header.artifact_name
        → (require (not (is_taken file_name)) already_exists
            >> (staging >>= λ staged. accepted (answer staged)))
          ≡ accepted built
        → IsWritten header binary platform name build_number built
    past_names plain h =
        let (_, g) = require_passed (not (is_taken file_name)) already_exists _ h in
        let (staged, (e, k)) = bind_passed staging _ g in
        from_staged staged plain e (accepted_eq (answer staged) built k)

    pub write_package-IsWritten :
        write_package conda digest format urls parse_url read_from_path write_conda_package header
            binary is_taken platform name build_number
          ≡ accepted built
        → IsWritten header binary platform name build_number built
    unfolding write_package
    write_package-IsWritten h =
        let (_, (plain, g)) = bind_passed (validate_plain_filename header.artifact_name) _ h in
        let (_, (_, k)) = bind_passed (validate_plain_filename file_name) _ g in
        past_names (validate_plain_filename-IsPlain header.artifact_name plain) k

  pub record IsPackaged (header : RuntimeDataHeader) (binary : Bytes) (built : UpdatePackageOutput)
      : Type 0 where
    pub update : RuntimeUpdateConfig
    pub configured : header.update ≡ some update
    pub direct : supports_direct_update update ≡ true
    pub channel_valid : validate_channel urls parse_url update.channel ≡ accepted tt
    pub name : Text
    pub named : conda.parse_name update.package_name ≡ some name
    pub version : conda.Version
    pub versioned : conda.parse_version header.runtime_version ≡ some version
    pub platform : format.Platform
    pub on_platform : format.parse_platform header.platform ≡ some platform
    pub written : IsWritten header binary platform name update.build_number built

  pub package_stamped-IsPackaged :
      (header : RuntimeDataHeader) (binary : Bytes) (is_taken : Text → Bool)
      (built : UpdatePackageOutput)
      → package_stamped conda digest format urls parse_url read_from_path write_conda_package header
          binary is_taken
        ≡ accepted built
      → IsPackaged header binary built
  unfolding package_stamped
  package_stamped-IsPackaged header binary is_taken built h =
      let (update, (configured, h1)) = need_passed header.update not_configured _ h in
      let (direct, h2) = require_passed (supports_direct_update update) externally_managed _ h1 in
      let (_, (channel_valid, h3)) =
        bind_passed (validate_channel urls parse_url update.channel) _ h2 in
      let (name, (named, h4)) =
        need_passed (conda.parse_name update.package_name) invalid_package_name _ h3 in
      let (version, (versioned, h5)) =
        need_passed (conda.parse_version header.runtime_version) invalid_version _ h4 in
      let (platform, (on_platform, h6)) =
        need_passed (format.parse_platform header.platform) wrong_platform _ h5 in
      let (_, h7) = require_passed (not (format.is_no_native platform)) wrong_platform _ h6 in
      record {
        update = update;
        configured = configured;
        direct = direct;
        channel_valid = channel_valid;
        name = name;
        named = named;
        version = version;
        versioned = versioned;
        platform = platform;
        on_platform = on_platform;
        written =
            write_package-IsWritten header binary is_taken platform name update.build_number built
              h7;
      }
