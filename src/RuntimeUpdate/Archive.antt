-- ===== src/RuntimeUpdate/Archive.antt =====
-- What an update package holds, as the cs tool writes it and the runtime reads it:
-- src/bin/cs/update_package.rs and src/runtime_update.rs. The forms of its two JSON files, and the
-- names of platforms, are those of the rattler libraries.
use conda_ship.Prelude.{
  ℕ, ◌≤◌, ◌/◌, ◌%◌, ◌+◌, Bool, true, false, ◌||◌, Option, none, some, List, [], ◌∷◌, ◌++◌, Text,
  Bytes, codes, map, ltb, nat_eq, is_empty, length, split_on, zero, suc, ◌==◌, list_eq, number_eq,
  if◌then◌else◌, ◌≡◌,
}
use conda_ship.Hash.{Digest, hex}
use conda_ship.RuntimeData.Binary.{max_u64}
use conda_ship.RuntimeUpdate.Packages.{Conda}

-- The files below a directory, by the components of their relative paths, the last one written
-- first.
abbrev pub Tree : Type 0
Tree = List (List Text × Bytes)

unfoldable pub lookup : List Text → Tree → Option Bytes
lookup path [] = none
lookup path ((name, contents) ∷ rest) =
    let further = lookup path rest in if name == path then some contents else further

pub data Component : Type 0 where
  root_dir cur_dir parent_dir : Component
  normal : Text → Component

unfoldable pub component : Text → Component
component s = if s == codes ".." then parent_dir else normal s

-- Empty segments, and full stops behind the first, are passed over.
unfoldable pub further_components : List Text → List Component
unfolding component
further_components [] = []
further_components (s ∷ rest) =
    let kept = further_components rest in
    if is_empty s || (s == codes ".") then kept else component s ∷ kept

unfoldable pub leading_component : Text → List Text → List Component
unfolding further_components
leading_component s rest =
    if s == codes "." then cur_dir ∷ further_components rest else further_components (s ∷ rest)

unfoldable pub relative_components : List Text → List Component
unfolding leading_component
relative_components [] = []
relative_components (s ∷ rest) = leading_component s rest

unfoldable pub starts_with_slash : Text → Bool
starts_with_slash [] = false
starts_with_slash (c ∷ rest) = nat_eq b'/' c

-- `Path::components`, outside Windows.
unfoldable pub path_components : Text → List Component
unfolding component further_components leading_component relative_components starts_with_slash
path_components path =
    let segments = split_on (nat_eq b'/') path in
    if starts_with_slash path
    then root_dir ∷ further_components segments
    else relative_components segments

abbrev pub is_normal : Component → Bool
is_normal (normal _) = true
is_normal _ = false

abbrev pub as_os_str : Component → Text
as_os_str root_dir = codes "/"
as_os_str cur_dir = codes "."
as_os_str parent_dir = codes ".."
as_os_str (normal s) = s

-- The entry of a tree that a path leads to.
unfoldable pub key : Text → List Text
unfolding path_components
key path = map as_os_str (path_components path)

-- `to_string` of a number.
digits : ℕ → ℕ → Text
digits zero n = []
digits (suc fuel) n =
    let front = digits fuel (n / 10) in
    if ltb n 10 then (b'0' + n) ∷ [] else front ++ ((b'0' + n % 10) ∷ [])

unfoldable pub decimal : ℕ → Text
unfolding digits
decimal n = digits (suc n) n

-- The JSON value that is written as `info/index.json`.
pub record IndexValue : Type 0 where
  pub arch : Text
  pub name : Text
  pub version : Text
  pub build : Text
  pub build_number : ℕ
  pub depends : List Text
  pub platform : Text
  pub subdir : Text

pub data PathType : Type 0 where
  hard_link soft_link directory : PathType

-- The JSON value that is written as `info/paths.json`, for its one entry.
pub record PathsValue : Type 0 where
  pub relative_path : Text
  pub path_type : Text
  pub sha256 : Text
  pub size_in_bytes : ℕ
  pub paths_version : ℕ

pub record PathsEntry : Type 0 where
  pub relative_path : Text
  pub path_type : PathType
  pub has_prefix_placeholder : Bool
  pub sha256 : Option Bytes
  pub size_in_bytes : Option ℕ

pub record PathsJson : Type 0 where
  pub paths : List PathsEntry
  pub paths_version : ℕ

module _ (conda : Conda) where
  pub record IndexJson : Type 0 where
    pub name : Text
    pub version : conda.Version
    pub build : Text
    pub build_number : ℕ
    pub subdir : Option Text
    pub depends : List Text

  -- What is used of rattler_conda_types for packages: its platforms, and the two files, of which it
  -- reads what serde_json writes. Names are normalised, and a version is shown as it was given.
  pub record PackageFormat (digest : Digest) : Type 1 where
    pub Platform : Type 0
    pub parse_platform : Text → Option Platform
    pub show_platform : Platform → Text
    pub parse-show_platform : (p : Platform) → parse_platform (show_platform p) ≡ some p
    pub is_windows : Platform → Bool
    -- `Platform::NoArch` and `Platform::Unknown`
    pub is_no_native : Platform → Bool
    pub only_platform : Platform → Option Text
    pub arch : Platform → Option Text
    pub render_index : IndexValue → Bytes
    pub parse_index : Bytes → Option IndexJson
    pub parse-render_index :
        (v : IndexValue) (version : conda.Version)
        → conda.parse_name v.name ≡ some v.name
        → conda.parse_version v.version ≡ some version
        → v.build_number ≤ max_u64
        → parse_index (render_index v)
          ≡ some (record {
            name = v.name;
            version = version;
            build = v.build;
            build_number = v.build_number;
            subdir = some v.subdir;
            depends = v.depends;
          })
    pub render_paths : PathsValue → Bytes
    pub parse_paths : Bytes → Option PathsJson
    pub parse-render_paths :
        (path : Text) (contents : Bytes)
        → length contents ≤ max_u64
        → parse_paths (
            render_paths (record {
              relative_path = path;
              path_type = codes "hardlink";
              sha256 = hex (digest.sha256 contents);
              size_in_bytes = length contents;
              paths_version = 1;
            }))
          ≡ some (record {
            paths =
                record {
                  relative_path = path;
                  path_type = hard_link;
                  has_prefix_placeholder = false;
                  sha256 = some (digest.sha256 contents);
                  size_in_bytes = some (length contents);
                }
                ∷ [];
            paths_version = 1;
          })
    pub parse_name_again : (t n : Text) → conda.parse_name t ≡ some n → conda.parse_name n ≡ some n
    pub show-parse_version :
        (t : Text) (v : conda.Version) → conda.parse_version t ≡ some v → conda.show_version v ≡ t
    pub version_eq_refl : (v : conda.Version) → conda.version_eq v v ≡ true
