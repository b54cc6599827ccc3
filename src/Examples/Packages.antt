-- ===== src/Examples/Packages.antt =====
-- A package format, an executable to package, and the theorems on update packages.
use conda_ship.Prelude.{
  ℕ, true, false, Option, none, some, [], ◌∷◌, ◌++◌, Text, Bytes, codes, replicate, length, ◌≡◌,
  refl, sym, arith, ==-refl, list_beq, list_eq, number_eq, split_on, onto_first, option_beq,
}
use conda_ship.Hash.{Digest}
use conda_ship.Fs.Checked.{accepted}
use conda_ship.Http.{validate_artifact_url}
use conda_ship.RuntimeData.Header.{RuntimeDataHeader, supports_direct_update}
use conda_ship.RuntimeData.Result.{Result, ok}
use conda_ship.RuntimeData.Stamping.{RuntimeData}
use conda_ship.RuntimeUpdate.Packages.{SelectedPackage}
use conda_ship.RuntimeUpdate.Archive.{
  Tree, IndexValue, PathsJson, IndexJson, PackageFormat, hard_link, decimal, lookup, key,
  path_components,
}
use conda_ship.RuntimeUpdate.Extracted.{
  validate_extracted_candidate, read_stamped, validate_channel,
}
use conda_ship.RuntimeUpdate.Replacement.{IsAcceptable, accepted_candidate_succeeds}
use conda_ship.Cs.ArtifactInfo.{
  ArtifactInfo, validate_info, validate_plain_filename, validate_stamp, same_names, same_config,
  validate_layout,
}
use conda_ship.Cs.UpdatePackage.{UpdatePackageOutput, package_update}
use conda_ship.Cs.Matching.{IsAnnounced}
use conda_ship.Cs.Replaces.{package_update-accepted}
use conda_ship.Examples.Addresses.{urls}
use conda_ship.Examples.Channels.{conda}
use conda_ship.Examples.Codec.{Codec, number, both, list, text, via}
use conda_ship.Examples.Updates.{header_of, update_config, zeros}

abbrev digest : Digest
digest = record {
  sha256 = λ b. replicate 32 0;
  sha256_bytes = λ b. zeros 32;
  length-sha256 = λ b. refl;
}

-- The JSON values are written as lists of numbers.
abbrev index_value : Codec IndexValue
index_value =
    via
      (λ v. (
        v.arch,
        (v.name, (v.version, (v.build, (v.build_number, (v.depends, (v.platform, v.subdir)))))),
      ))
      (λ (a, (b, (c, (d, (e, (f, (g, h))))))). record {
        arch = a;
        name = b;
        version = c;
        build = d;
        build_number = e;
        depends = f;
        platform = g;
        subdir = h;
      })
      (both text
        (both text (both text (both text (both number (both (list text) (both text text)))))))
      (λ v. refl)

abbrev paths_value : Codec (Text × ℕ)
paths_value = both text number

abbrev as_index : Option (IndexValue × Bytes) → Option (IndexJson conda)
as_index none = none
as_index (some (v, _)) = some (record {
  name = v.name;
  version = v.version;
  build = v.build;
  build_number = v.build_number;
  subdir = some v.subdir;
  depends = v.depends;
})

abbrev as_paths : Option ((Text × ℕ) × Bytes) → Option PathsJson
as_paths none = none
as_paths (some ((path, size), _)) = some (record {
  paths =
      record {
        relative_path = path;
        path_type = hard_link;
        has_prefix_placeholder = false;
        sha256 = some (replicate 32 0);
        size_in_bytes = some size;
      }
      ∷ [];
  paths_version = 1;
})

index_lem :
    (v : IndexValue) (version : Text)
    → conda.parse_version v.version ≡ some version
    → as_index (index_value.get (index_value.put v ++ []))
      ≡ some (record {
        name = v.name;
        version = version;
        build = v.build;
        build_number = v.build_number;
        subdir = some v.subdir;
        depends = v.depends;
      })
index_lem v version h =
    let same : v.version ≡ version = cc h in rw (index_value.get-put v [], sym same) refl

same_text : (v : Text) → list_beq v v ≡ true
same_text v = ==-refl v

shown : (t v : Text) → some t ≡ some v → v ≡ t
shown t v h = cc h

abbrev format : PackageFormat conda digest
format = record {
  Platform = Text;
  parse_platform = some;
  show_platform = λ p. p;
  parse-show_platform = λ p. refl;
  is_windows = λ p. false;
  is_no_native = λ p. false;
  only_platform = λ p. some (codes "linux");
  arch = λ p. some (codes "x86_64");
  render_index = λ v. index_value.put v ++ [];
  parse_index = λ b. as_index (index_value.get b);
  parse-render_index = λ v version _ h _. index_lem v version h;
  render_paths = λ v. paths_value.put (v.relative_path, v.size_in_bytes) ++ [];
  parse_paths = λ b. as_paths (paths_value.get b);
  parse-render_paths = λ path contents _. rw (paths_value.get-put (path, length contents) []) refl;
  parse_name_again = λ t n h. refl;
  show-parse_version = shown;
  version_eq_refl = same_text;
}

abbrev header : RuntimeDataHeader
header = header_of (codes "2.0.1")

abbrev read_from_path : Bytes → Result (Option RuntimeData)
read_from_path file = ok (some (record { header = header; bundle = none; stamped = true }))

abbrev binary : Bytes
binary = 1 ∷ 2 ∷ []

abbrev info : ArtifactInfo
info = record {
  schema_version = 1;
  name = codes "demo-linux-64";
  artifact_name = codes "demo";
  runtime_name = codes "demo";
  runtime_version = codes "2.0.1";
  layout = codes "online";
  platform = codes "linux-64";
  update = some update_config;
  binary = codes "demo-linux-64";
  bundle = none;
  lock = codes "demo.runtime.lock";
  package_list = codes "demo.packages.txt";
  sbom = none;
  package_count = 1;
  checksums = [];
}

abbrev write_conda_package : Tree → Bytes
write_conda_package staged = []

packaged :
    (built : UpdatePackageOutput) × (package_update conda digest format urls urls.parse_channel
        read_from_path write_conda_package true info binary
        (λ name. false)
      ≡ accepted built)
unfolding package_update validate_info validate_plain_filename validate_stamp same_names same_config
    validate_layout list_beq split_on onto_first path_components read_stamped option_beq
    supports_direct_update validate_channel validate_artifact_url decimal
packaged = (_, refl)

abbrev built : UpdatePackageOutput
built = packaged.0

abbrev announced : SelectedPackage conda
announced = record {
  repo_record = record {
    package_record = record {
      name = built.package_name;
      version = built.runtime_version;
      build = decimal built.build_number;
      build_number = built.build_number;
      subdir = built.platform;
      depends = [];
      sha256 = none;
      size = none;
    };
    identifier = built.filename;
  };
  filename = built.filename;
  sha256 = built.sha256;
  size = built.size;
}

consistent : IsAnnounced conda announced.repo_record.package_record built
consistent = record {
  name = refl;
  version = refl;
  build = refl;
  build_number = refl;
  subdir = refl;
  depends = refl;
}

extracted :
    validate_extracted_candidate conda digest format urls urls.parse_channel read_from_path
      built.staged
      (codes "linux-64")
      (header_of (codes "1.0"))
      update_config
      announced
    ≡ accepted (key built.payload)
extracted =
    (package_update-accepted conda digest format urls urls.parse_channel read_from_path
      write_conda_package true info binary (λ name. false) built packaged.1 (omega arith)
      update_config refl (omega arith) (codes "linux-64") refl (header_of (codes "1.0")) refl refl
      update_config refl refl announced consistent).0

package_update-accepted_example :
    (validate_extracted_candidate conda digest format urls urls.parse_channel read_from_path
        built.staged
        (codes "linux-64")
        (header_of (codes "1.0"))
        update_config
        announced
      ≡ accepted (key built.payload))
    × (lookup (key built.payload) built.staged ≡ some binary)
package_update-accepted_example =
    package_update-accepted conda digest format urls urls.parse_channel read_from_path
      write_conda_package true info binary (λ name. false) built packaged.1 (omega arith)
      update_config refl (omega arith) (codes "linux-64") refl (header_of (codes "1.0")) refl refl
      update_config refl refl announced consistent

accepted_candidate_succeeds_example :
    IsAcceptable conda digest format urls urls.parse_channel read_from_path built.staged
      (key built.payload)
      (header_of (codes "1.0"))
      update_config
      announced
      (codes "linux-64")
accepted_candidate_succeeds_example =
    accepted_candidate_succeeds conda digest format urls urls.parse_channel read_from_path
      built.staged (codes "linux-64") (header_of (codes "1.0")) update_config announced
      (key built.payload) extracted
