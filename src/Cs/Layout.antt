-- ===== src/Cs/Layout.antt =====
-- The files of a package of src/bin/cs/update_package.rs, by the components of their paths.
use conda_ship.Prelude.{
  Bool, true, some, List, [], ◌∷◌, Text, Bytes, codes, all, map, list_beq, split_on, onto_first,
  list_eq, number_eq, ◌≡◌, refl, ==-refl,
}
use conda_ship.RuntimeUpdate.Archive.{
  Tree, lookup, key, normal, path_components, component, further_components, leading_component,
  relative_components, starts_with_slash, is_normal, as_os_str,
}
use conda_ship.Cs.UpdatePackage.{payload_name}
use conda_ship.Cs.PlainNames.{IsPlain, payload_parts, payload_components, payload_apart}

names_of : (names : List Text) → map as_os_str (map normal names) ≡ names
names_of [] = refl
names_of (s ∷ rest) = rw (names_of rest) refl

all_normal : (names : List Text) → all is_normal (map normal names) ≡ true
all_normal [] = refl
all_normal (s ∷ rest) = all_normal rest

pub payload_key :
    (w : Bool) (name : Text) → IsPlain name → key (payload_name w name) ≡ payload_parts w name
unfolding key
payload_key w name i = rw (payload_components w name i) (names_of (payload_parts w name))

pub payload_normal :
    (w : Bool) (name : Text)
    → IsPlain name
    → all is_normal (path_components (payload_name w name)) ≡ true
payload_normal w name i = rw (payload_components w name i) (all_normal (payload_parts w name))

abbrev pub info : Text → List Text
info file = codes "info" ∷ file ∷ []

pub key_index : key (codes "info/index.json") ≡ info (codes "index.json")
unfolding key path_components relative_components leading_component further_components component
    starts_with_slash split_on onto_first list_beq
key_index = refl

pub key_files : key (codes "info/files") ≡ info (codes "files")
unfolding key path_components relative_components leading_component further_components component
    starts_with_slash split_on onto_first list_beq
key_files = refl

pub key_paths : key (codes "info/paths.json") ≡ info (codes "paths.json")
unfolding key path_components relative_components leading_component further_components component
    starts_with_slash split_on onto_first list_beq
key_paths = refl

abbrev pub laid_out : List Text → Bytes → Bytes → Bytes → Bytes → Tree
laid_out payload paths files index binary =
    (info (codes "paths.json"), paths)
    ∷ (info (codes "files"), files)
    ∷ (info (codes "index.json"), index)
    ∷ (payload, binary)
    ∷ []

module _ (payload : List Text) (paths files index binary : Bytes) where
  pub index_found :
      lookup (info (codes "index.json")) (laid_out payload paths files index binary) ≡ some index
  unfolding lookup list_beq
  index_found = refl

  pub paths_found :
      lookup (info (codes "paths.json")) (laid_out payload paths files index binary) ≡ some paths
  unfolding lookup list_beq
  paths_found = refl

pub payload_found :
    (w : Bool) (name : Text) (paths files index binary : Bytes)
    → lookup (payload_parts w name) (laid_out (payload_parts w name) paths files index binary)
      ≡ some binary
unfolding lookup
payload_found w name paths files index binary =
    rw
      (
        payload_apart w name (codes "paths.json"),
        payload_apart w name (codes "files"),
        payload_apart w name (codes "index.json"),
        ==-refl (payload_parts w name),
      )
      refl
