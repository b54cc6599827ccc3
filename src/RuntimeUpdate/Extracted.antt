-- ===== src/RuntimeUpdate/Extracted.antt =====
-- The checks on an update package before it replaces the running executable:
-- `validate_extracted_candidate` and `validate_update_config` of src/runtime_update.rs, and
-- `validate_channel` of src/bin/cs/update_package.rs.
use conda_ship.Prelude.{
  ℕ, Bool, true, false, not, ◌&&◌, ◌||◌, Option, none, some, List, [], ◌∷◌, Text, Bytes, codes,
  length, all, is_empty, nat_eq, ◌==◌, list_eq, option_eq, number_eq,
}
use conda_ship.Fs.Failure.{
  not_found, unparsable, invalid_package_name, package_mismatch, payload_count, payload_invalid,
  digest_missing, size_missing, size_mismatch, digest_mismatch, stamp_unreadable, not_stamped,
  stamp_mismatch, not_configured, invalid_channel,
}
use conda_ship.Fs.Checked.{Checked, accepted, rejected, ◌>>=◌, ◌>>◌, require, need}
use conda_ship.Hash.{Digest, hex}
use conda_ship.RuntimeData.Header.{RuntimeDataHeader, RuntimeUpdateConfig, supports_direct_update}
use conda_ship.RuntimeData.Result.{Result, ok, err}
use conda_ship.RuntimeData.Stamping.{RuntimeData}
use conda_ship.Http.{UrlLibrary, Url, validate_artifact_url}
use conda_ship.RuntimeUpdate.Packages.{Conda, PackageRecord, SelectedPackage}
use conda_ship.RuntimeUpdate.Archive.{
  Tree, lookup, key, path_components, is_normal, PathType, hard_link, PathsEntry, PathsJson,
  IndexJson, PackageFormat,
}

-- The check of an address ends (Http), so that the first case does not occur.
settled : Option (Checked (Unit {0})) → Checked (Unit {0})
settled none = rejected unparsable
settled (some r) = r

-- `runtime_data::read_from_path`, where a file that is not stamped is an error.
unfoldable pub read_stamped : (Bytes → Result (Option RuntimeData)) → Bytes → Checked RuntimeData
read_stamped read_from_path file = elim (read_from_path file) [
  | err _ ↦ rejected stamp_unreadable
  | ok data_read ↦ need data_read not_stamped
]

abbrev is_hard_link : PathType → Bool
is_hard_link hard_link = true
is_hard_link _ = false

-- `let [payload_entry] = …`
unfoldable pub only_entry : List PathsEntry → Checked PathsEntry
only_entry [] = rejected payload_count
only_entry (entry ∷ []) = accepted entry
only_entry (_ ∷ _ ∷ _) = rejected payload_count

unfoldable pub valid_entry : PathsJson → PathsEntry → Bool
valid_entry paths entry =
    nat_eq paths.paths_version 1
    && (is_hard_link entry.path_type
        && (not entry.has_prefix_placeholder
            && (not (is_empty entry.relative_path)
                && all is_normal (path_components entry.relative_path))))

unfoldable pub verify_file : Digest → Bytes → Text → ℕ → Checked (Unit {0})
verify_file digest contents expected size = do
  require (nat_eq (length contents) size) size_mismatch
  require (hex (digest.sha256 contents) == expected) digest_mismatch

module _ (urls : UrlLibrary) (parse_url : Text → Option Url) where
  -- `parse_url` is `reqwest::Url::parse`, without a base.
  unfoldable pub validate_channel : Text → Checked (Unit {0})
  unfolding settled
  validate_channel value = do
    channel ← need (parse_url value) unparsable
    require ((channel.scheme == codes "https") || (channel.scheme == codes "file")) invalid_channel
    settled (validate_artifact_url urls value)

module _ (conda : Conda) where
  unfoldable pub same_identity : IndexJson conda → PackageRecord conda → Text → Text → Bool
  same_identity index record_ expected_package expected_subdir =
      (index.name == expected_package)
      && ((index.name == record_.name)
          && (conda.version_eq index.version record_.version
              && ((index.build == record_.build)
                  && (nat_eq index.build_number record_.build_number
                      && ((index.subdir == some expected_subdir)
                          && ((record_.subdir == expected_subdir)
                              && (is_empty index.depends && is_empty record_.depends)))))))

  abbrev pub is_self_contained : Text → Bool
  is_self_contained layout = (layout == codes "online") || (layout == codes "embedded")

  unfoldable pub stamp_matches :
      RuntimeDataHeader → RuntimeDataHeader → IndexJson conda → Text → Bool
  stamp_matches header current index expected_subdir =
      (header.runtime_name == current.runtime_name)
      && ((header.artifact_name == current.artifact_name)
          && ((header.runtime_version == conda.show_version index.version)
              && (is_self_contained header.artifact_layout
                  && (header.platform == expected_subdir))))

  unfoldable pub config_matches : RuntimeUpdateConfig → RuntimeUpdateConfig → IndexJson conda → Bool
  config_matches stamped_update update index =
      (stamped_update.channel == update.channel)
      && ((stamped_update.package_name == update.package_name)
          && (supports_direct_update stamped_update
              && nat_eq stamped_update.build_number index.build_number))

  unfoldable pub validate_update_config :
      (Text → Checked (Unit {0})) → RuntimeUpdateConfig → Checked (Unit {0})
  validate_update_config check_channel update = do
    check_channel update.channel
    _ ← need (conda.parse_name update.package_name) invalid_package_name
    accepted tt

  module _ (digest : Digest) (format : PackageFormat conda digest) (urls : UrlLibrary)
      (parse_url : Text → Option Url) (read_from_path : Bytes → Result (Option RuntimeData)) where
    -- What is checked of the stamp of the payload.
    unfoldable pub validate_payload_stamp :
        RuntimeDataHeader
        → RuntimeDataHeader
        → RuntimeUpdateConfig
        → IndexJson conda
        → Text
        → Checked (Unit {0})
    unfolding stamp_matches config_matches
    validate_payload_stamp header current update index expected_subdir = do
      require (stamp_matches header current index expected_subdir) stamp_mismatch
      stamped_update ← need header.update not_configured
      validate_update_config (validate_channel urls parse_url) stamped_update
      require (config_matches stamped_update update index) stamp_mismatch

    -- What is checked of the payload. Its path is the result.
    unfoldable pub validate_payload :
        Tree
        → Text
        → RuntimeDataHeader
        → RuntimeUpdateConfig
        → IndexJson conda
        → PathsJson
        → Checked (List Text)
    unfolding only_entry valid_entry
    validate_payload extracted expected_subdir current update index paths = do
      entry ← only_entry paths.paths
      require (valid_entry paths entry) payload_invalid
      payload_sha256 ← need entry.sha256 digest_missing
      payload_size ← need entry.size_in_bytes size_missing
      contents ← need (lookup (key entry.relative_path) extracted) not_found
      verify_file digest contents (hex payload_sha256) payload_size
      stamped ← read_stamped read_from_path contents
      validate_payload_stamp stamped.header current update index expected_subdir
      accepted (key entry.relative_path)

    -- The path of the payload, in the tree that the package was extracted to.
    unfoldable pub validate_extracted_candidate :
        Tree
        → format.Platform
        → RuntimeDataHeader
        → RuntimeUpdateConfig
        → SelectedPackage conda
        → Checked (List Text)
    unfolding same_identity validate_payload
    validate_extracted_candidate extracted here current update candidate = do
      index_bytes ← need (lookup (key (codes "info/index.json")) extracted) not_found
      index ← need (format.parse_index index_bytes) unparsable
      expected_package ← need (conda.parse_name update.package_name) invalid_package_name
      require
          (same_identity index candidate.repo_record.package_record expected_package
            (format.show_platform here))
          package_mismatch
      paths_bytes ← need (lookup (key (codes "info/paths.json")) extracted) not_found
      paths ← need (format.parse_paths paths_bytes) unparsable
      validate_payload extracted (format.show_platform here) current update index paths
