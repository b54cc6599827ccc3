-- ===== src/Cs/Accepted.antt =====
-- The update package that src/bin/cs/update_package.rs builds, checked by src/runtime_update.rs of
-- a runtime that is to be replaced.
use conda_ship.Prelude.{
  ℕ, ◌≤◌, true, false, Option, some, List, [], ◌∷◌, ◌++◌, Text, Bytes, codes, length, list_eq,
  option_eq, number_eq, ◌≡◌, refl, ◌∙◌,
}
use conda_ship.Fs.Checked.{accepted}
use conda_ship.Hash.{Digest, hex}
use conda_ship.Http.{UrlLibrary, Url}
use conda_ship.RuntimeData.Binary.{max_u64}
use conda_ship.RuntimeData.Header.{RuntimeDataHeader, RuntimeUpdateConfig}
use conda_ship.RuntimeData.Result.{Result}
use conda_ship.RuntimeData.Stamping.{RuntimeData}
use conda_ship.RuntimeUpdate.Packages.{Conda, SelectedPackage}
use conda_ship.RuntimeUpdate.Archive.{
  Tree, lookup, decimal, IndexJson, PackageFormat, PathsEntry, hard_link,
}
use conda_ship.RuntimeUpdate.Extracted.{
  read_stamped, same_identity, only_entry, valid_entry, validate_payload_stamp, validate_payload,
  validate_extracted_candidate,
}
use conda_ship.Cs.UpdatePackage.{UpdatePackageOutput, contents_of, payload_name}
use conda_ship.Cs.PlainNames.{payload_parts, payload_filled}
use conda_ship.Cs.Layout.{
  payload_key, payload_normal, laid_out, key_index, key_files, key_paths, index_found, paths_found,
  payload_found,
}
use conda_ship.Cs.Packaged.{IsWritten}
use conda_ship.Cs.Matching.{verify_file-same}

module _ (conda : Conda) (digest : Digest) (format : PackageFormat conda digest) (urls : UrlLibrary)
    (parse_url : Text → Option Url) (read_from_path : Bytes → Result (Option RuntimeData))
    (write_conda_package : Tree → Bytes) where
  -- The files of a package that was written.
  module _ (header : RuntimeDataHeader) (binary : Bytes) (platform : format.Platform) (name : Text)
      (build_number : ℕ) (built : UpdatePackageOutput)
      (w : IsWritten conda digest format urls parse_url read_from_path write_conda_package header
        binary platform name build_number built) where
    abbrev pub payload : Text
    payload = payload_name (format.is_windows platform) header.artifact_name

    abbrev pub index_bytes : Bytes
    index_bytes = format.render_index (record {
      arch = w.arch;
      name = name;
      version = header.runtime_version;
      build = decimal build_number;
      build_number = build_number;
      depends = [];
      platform = w.os;
      subdir = format.show_platform platform;
    })

    abbrev pub paths_bytes : Bytes
    paths_bytes = format.render_paths (record {
      relative_path = payload;
      path_type = codes "hardlink";
      sha256 = hex (digest.sha256 binary);
      size_in_bytes = length binary;
      paths_version = 1;
    })

    abbrev pub parts : List Text
    parts = payload_parts (format.is_windows platform) header.artifact_name

    staged_laid_out :
        built.staged ≡ laid_out parts paths_bytes (payload ++ codes "\n") index_bytes binary
    unfolding contents_of
    staged_laid_out =
        w.staged
        ∙ rw
            (
              key_index,
              key_files,
              key_paths,
              payload_key (format.is_windows platform) header.artifact_name w.plain,
            )
            refl

    abbrev pub listed : PathsEntry
    listed = record {
      relative_path = payload;
      path_type = hard_link;
      has_prefix_placeholder = false;
      sha256 = some (digest.sha256 binary);
      size_in_bytes = some (length binary);
    }

    entry_valid : valid_entry (record { paths = listed ∷ []; paths_version = 1 }) listed ≡ true
    unfolding valid_entry
    entry_valid =
        rw
          (
            payload_filled (format.is_windows platform) header.artifact_name,
            payload_normal (format.is_windows platform) header.artifact_name w.plain,
          )
          refl

    abbrev pub read_index : conda.Version → IndexJson conda
    read_index version = record {
      name = name;
      version = version;
      build = decimal build_number;
      build_number = build_number;
      subdir = some (format.show_platform platform);
      depends = [];
    }

    -- What the checks of the extracted package come to.
    pub extracted_lem :
        (version : conda.Version) (current : RuntimeDataHeader) (update : RuntimeUpdateConfig)
        (candidate : SelectedPackage conda) (stamped : RuntimeData)
        → format.parse_index index_bytes ≡ some (read_index version)
        → length binary ≤ max_u64
        → conda.parse_name update.package_name ≡ some name
        → same_identity conda
            (read_index version)
            candidate.repo_record.package_record
            name
            (format.show_platform platform)
          ≡ true
        → read_stamped read_from_path binary ≡ accepted stamped
        → validate_payload_stamp conda digest format urls parse_url read_from_path stamped.header
            current update
            (read_index version)
            (format.show_platform platform)
          ≡ accepted tt
        → validate_extracted_candidate conda digest format urls parse_url read_from_path
            built.staged platform current update candidate
          ≡ accepted parts
    unfolding validate_extracted_candidate validate_payload only_entry
    extracted_lem version current update candidate stamped index_read small named same read
          checked =
        rw
          (
            staged_laid_out,
            key_index,
            key_paths,
            index_found parts paths_bytes (payload ++ codes "\n") index_bytes binary,
            index_read,
            named,
            same,
            paths_found parts paths_bytes (payload ++ codes "\n") index_bytes binary,
            format.parse-render_paths payload binary small,
            entry_valid,
            payload_key (format.is_windows platform) header.artifact_name w.plain,
            payload_found (format.is_windows platform) header.artifact_name paths_bytes
                (payload ++ codes "\n") index_bytes binary,
            verify_file-same digest binary,
            read,
            checked,
          )
          refl

    -- The payload of the package is the executable that was packaged.
    pub staged_lookup : lookup parts built.staged ≡ some binary
    staged_lookup = rw staged_laid_out (
        payload_found (format.is_windows platform) header.artifact_name paths_bytes
          (payload ++ codes "\n") index_bytes binary)
