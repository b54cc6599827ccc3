-- ===== src/RuntimeUpdate/Replacement.antt =====
-- What a package that passes `validate_extracted_candidate` of src/runtime_update.rs holds.
use conda_ship.Prelude.{
  true, Option, some, List, Text, Bytes, codes, nat_eq, ◌==◌, list_eq, option_eq, number_eq, ◌≡◌,
  ap, sym, ◌∙◌, ==-eq, &&-eq-true,
}
use conda_ship.Fs.Failure.{
  not_found, unparsable, invalid_package_name, package_mismatch, payload_invalid, digest_missing,
  size_missing, stamp_mismatch, not_configured,
}
use conda_ship.Fs.Checked.{
  accepted, require_passed, require_accepted, need_passed, bind_passed, accepted_eq,
}
use conda_ship.Hash.{Digest, hex}
use conda_ship.Http.{UrlLibrary, Url}
use conda_ship.RuntimeData.Header.{RuntimeDataHeader, RuntimeUpdateConfig, supports_direct_update}
use conda_ship.RuntimeData.Result.{Result}
use conda_ship.RuntimeData.Stamping.{RuntimeData}
use conda_ship.RuntimeUpdate.Packages.{Conda, PackageRecord, SelectedPackage}
use conda_ship.RuntimeUpdate.Archive.{Tree, lookup, key, PackageFormat, IndexJson, PathsJson}
use conda_ship.RuntimeUpdate.Extracted.{
  read_stamped, validate_channel, same_identity, only_entry, valid_entry, verify_file,
  stamp_matches, config_matches, is_self_contained, validate_update_config, validate_payload_stamp,
  validate_payload, validate_extracted_candidate,
}

module _ (conda : Conda) where
  -- A stamp that may replace that of the running executable.
  pub record IsSuccessor (header current : RuntimeDataHeader) (update : RuntimeUpdateConfig)
      (index : IndexJson conda) (platform : Text) : Type 0 where
    pub runtime_name : header.runtime_name ≡ current.runtime_name
    pub artifact_name : header.artifact_name ≡ current.artifact_name
    pub version : header.runtime_version ≡ conda.show_version index.version
    pub same_platform : header.platform ≡ platform
    pub next : RuntimeUpdateConfig
    pub configured : header.update ≡ some next
    pub same_channel : next.channel ≡ update.channel
    pub same_package : next.package_name ≡ update.package_name
    pub direct : supports_direct_update next ≡ true
    pub numbered : next.build_number ≡ index.build_number

  module _ (header current : RuntimeDataHeader) (update : RuntimeUpdateConfig)
      (index : IndexJson conda) (platform : Text) (next : RuntimeUpdateConfig) where
    successor :
        stamp_matches conda header current index platform ≡ true
        → header.update ≡ some next
        → config_matches conda next update index ≡ true
        → IsSuccessor header current update index platform
    unfolding stamp_matches config_matches
    successor h configured k =
        let (a, h1) = &&-eq-true {a = header.runtime_name == current.runtime_name} h in
        let (b, h2) = &&-eq-true {a = header.artifact_name == current.artifact_name} h1 in
        let (c, h3) =
          &&-eq-true {a = header.runtime_version == conda.show_version index.version} h2 in
        let (_, d) = &&-eq-true {a = is_self_contained conda header.artifact_layout} h3 in
        let (e, k1) = &&-eq-true {a = next.channel == update.channel} k in
        let (f, k2) = &&-eq-true {a = next.package_name == update.package_name} k1 in
        let (g, n) = &&-eq-true {a = supports_direct_update next} k2 in
        record {
          runtime_name = ==-eq header.runtime_name current.runtime_name a;
          artifact_name = ==-eq header.artifact_name current.artifact_name b;
          version = ==-eq header.runtime_version (conda.show_version index.version) c;
          same_platform = ==-eq header.platform platform d;
          next = next;
          configured = configured;
          same_channel = ==-eq next.channel update.channel e;
          same_package = ==-eq next.package_name update.package_name f;
          direct = g;
          numbered = ==-eq next.build_number index.build_number n;
        }

  -- The package is the one that the channel announced.
  pub record IsAsAnnounced (index : IndexJson conda) (announced : PackageRecord conda)
      : Type 0 where
    pub same_name : index.name ≡ announced.name
    pub same_version : conda.version_eq index.version announced.version ≡ true
    pub same_build : index.build ≡ announced.build
    pub same_build_number : index.build_number ≡ announced.build_number

  identity_passed :
      (index : IndexJson conda) (announced : PackageRecord conda) (name platform : Text)
      → same_identity conda index announced name platform ≡ true
      → IsAsAnnounced index announced
  unfolding same_identity
  identity_passed index announced name platform h =
      let (_, h1) = &&-eq-true {a = index.name == name} h in
      let (b, h2) = &&-eq-true {a = index.name == announced.name} h1 in
      let (c, h3) = &&-eq-true {a = conda.version_eq index.version announced.version} h2 in
      let (d, h4) = &&-eq-true {a = index.build == announced.build} h3 in
      let (e, _) = &&-eq-true {a = nat_eq index.build_number announced.build_number} h4 in
      record {
        same_name = ==-eq index.name announced.name b;
        same_version = c;
        same_build = ==-eq index.build announced.build d;
        same_build_number = ==-eq index.build_number announced.build_number e;
      }

  module _ (digest : Digest) (format : PackageFormat conda digest) (urls : UrlLibrary)
      (parse_url : Text → Option Url) (read_from_path : Bytes → Result (Option RuntimeData)) where
    stamp_passed :
        (header current : RuntimeDataHeader) (update : RuntimeUpdateConfig)
        (index : IndexJson conda) (platform : Text)
        → validate_payload_stamp conda digest format urls parse_url read_from_path header current
            update index platform
          ≡ accepted tt
        → IsSuccessor header current update index platform
    unfolding validate_payload_stamp
    stamp_passed header current update index platform h =
        let (matches, h1) =
          require_passed (stamp_matches conda header current index platform) stamp_mismatch _ h in
        let (next, (configured, h2)) = need_passed header.update not_configured _ h1 in
        let (_, (_, h3)) =
          bind_passed (validate_update_config conda (validate_channel urls parse_url) next) _ h2 in
        successor header current update index platform next matches configured
          (require_accepted (config_matches conda next update index) stamp_mismatch h3)

    -- The file that replaces the executable.
    pub record IsReplacement (extracted : Tree) (path : List Text) (current : RuntimeDataHeader)
        (update : RuntimeUpdateConfig) (index : IndexJson conda) (platform : Text) : Type 0 where
      pub payload : Bytes
      pub found : lookup path extracted ≡ some payload
      pub stamped : RuntimeData
      pub stamp_read : read_stamped read_from_path payload ≡ accepted stamped
      pub succeeds : IsSuccessor stamped.header current update index platform

    payload_passed :
        (extracted : Tree) (platform : Text) (current : RuntimeDataHeader)
        (update : RuntimeUpdateConfig) (index : IndexJson conda) (paths : PathsJson)
        (path : List Text)
        → validate_payload conda digest format urls parse_url read_from_path extracted platform
            current update index paths
          ≡ accepted path
        → IsReplacement extracted path current update index platform
    unfolding validate_payload
    payload_passed extracted platform current update index paths path h =
        let (entry, (_, h1)) = bind_passed (only_entry paths.paths) _ h in
        let (_, h2) = require_passed (valid_entry paths entry) payload_invalid _ h1 in
        let (sha256, (_, h3)) = need_passed entry.sha256 digest_missing _ h2 in
        let (size, (_, h4)) = need_passed entry.size_in_bytes size_missing _ h3 in
        let (contents, (found, h5)) =
          need_passed (lookup (key entry.relative_path) extracted) not_found _ h4 in
        let (_, (_, h6)) = bind_passed (verify_file digest contents (hex sha256) size) _ h5 in
        let (stamped, (read, h7)) = bind_passed (read_stamped read_from_path contents) _ h6 in
        let (_, (checked, h8)) =
          bind_passed
            (validate_payload_stamp conda digest format urls parse_url read_from_path stamped.header
              current update index platform)
            _ h7 in
        record {
          payload = contents;
          found =
              ap (λ p. lookup p extracted) (sym (accepted_eq (key entry.relative_path) path h8))
              ∙ found;
          stamped = stamped;
          stamp_read = read;
          succeeds = stamp_passed stamped.header current update index platform checked;
        }

    -- What the index and the payload of a package say, for the runtime that it is to replace.
    pub record IsAcceptable (extracted : Tree) (path : List Text) (current : RuntimeDataHeader)
        (update : RuntimeUpdateConfig) (candidate : SelectedPackage conda) (platform : Text)
        : Type 0 where
      pub index_bytes : Bytes
      pub index_found : lookup (key (codes "info/index.json")) extracted ≡ some index_bytes
      pub index : IndexJson conda
      pub index_read : format.parse_index index_bytes ≡ some index
      pub replaces : IsReplacement extracted path current update index platform
      pub announced : IsAsAnnounced index candidate.repo_record.package_record

    -- If a package is accepted, the file that is to replace the executable is in it, and is stamped
    -- as the same runtime and artifact, for this platform, in the version of the package, with
    -- direct updates from the same channel and package: an update cannot move a runtime to another
    -- source. The name, version and build in the index of the package are those that the channel
    -- announced.
    pub accepted_candidate_succeeds :
        (extracted : Tree) (here : format.Platform) (current : RuntimeDataHeader)
        (update : RuntimeUpdateConfig) (candidate : SelectedPackage conda) (path : List Text)
        → validate_extracted_candidate conda digest format urls parse_url read_from_path extracted
            here current update candidate
          ≡ accepted path
        → IsAcceptable extracted path current update candidate (format.show_platform here)
    unfolding validate_extracted_candidate
    accepted_candidate_succeeds extracted here current update candidate path h =
        let (index_bytes, (index_found, h1)) =
          need_passed (lookup (key (codes "info/index.json")) extracted) not_found _ h in
        let (index, (index_read, h2)) =
          need_passed (format.parse_index index_bytes) unparsable _ h1 in
        let (name, (_, h3)) =
          need_passed (conda.parse_name update.package_name) invalid_package_name _ h2 in
        let (same, h4) =
          require_passed
            (same_identity conda index candidate.repo_record.package_record name
              (format.show_platform here))
            package_mismatch _ h3 in
        let (paths_bytes, (_, h5)) =
          need_passed (lookup (key (codes "info/paths.json")) extracted) not_found _ h4 in
        let (paths, (_, h6)) = need_passed (format.parse_paths paths_bytes) unparsable _ h5 in
        record {
          index_bytes = index_bytes;
          index_found = index_found;
          index = index;
          index_read = index_read;
          replaces =
              payload_passed extracted (format.show_platform here) current update index paths path
                h6;
          announced =
              identity_passed index candidate.repo_record.package_record name
                (format.show_platform here) same;
        }
