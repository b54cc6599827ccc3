-- ===== src/RuntimeUpdate/Select.antt =====
-- Which package is offered as an update: `select_candidate` of src/runtime_update.rs.
use conda_ship.Prelude.{
  Bool, not, ◌&&◌, ◌||◌, Option, none, some, List, [], ◌∷◌, Text, codes, ◌==◌, list_eq, number_eq,
  if◌then◌else◌, any, contains, is_empty, is_control, ends_with,
}
use conda_ship.Fs.Failure.{
  invalid_package_name, invalid_version, size_missing, digest_missing, invalid_filename,
}
use conda_ship.Fs.Checked.{Checked, accepted, ◌>>=◌, ◌>>◌, require, need}
use conda_ship.Hash.{hex}
use conda_ship.RuntimeData.Header.{RuntimeDataHeader, RuntimeUpdateConfig}
use conda_ship.RuntimeUpdate.Packages.{Conda, RepoDataRecord, SelectedPackage, Key, key, key_le}

unfoldable pub validate_package_filename : Text → Checked (Unit {0})
unfolding is_control ends_with
validate_package_filename filename =
    require
      (not (
        is_empty filename
        || (not (ends_with filename (codes ".conda"))
            || (contains b'/' filename || (contains b'\\' filename || any is_control filename)))))
      invalid_filename

module _ (conda : Conda) where
  -- What the loop does not skip.
  unfoldable pub offered : Text → Text → Key conda → RepoDataRecord conda → Bool
  unfolding ends_with key_le
  offered package_name platform current r =
      (r.package_record.name == package_name)
      && (ends_with r.identifier (codes ".conda")
          && ((r.package_record.subdir == platform) && not (key_le conda (key conda r) current)))

  unfoldable pub describe : RepoDataRecord conda → Checked (SelectedPackage conda)
  unfolding validate_package_filename
  describe r = do
    size ← need r.package_record.size size_missing
    digest ← need r.package_record.sha256 digest_missing
    validate_package_filename r.identifier
    accepted (record { repo_record = r; filename = r.identifier; sha256 = hex digest; size = size })

  -- The loop that fills `candidates`.
  unfoldable pub collect :
      (RepoDataRecord conda → Bool)
      → List (RepoDataRecord conda)
      → Checked (List (SelectedPackage conda))
  unfolding describe
  collect wanted [] = accepted []
  collect wanted (r ∷ records) =
      let rest = collect wanted records in
      if wanted r then (do c ← describe r; candidates ← rest; accepted (c ∷ candidates)) else rest

  abbrev pub candidate_le : SelectedPackage conda → SelectedPackage conda → Bool
  candidate_le a b = key_le conda (key conda a.repo_record) (key conda b.repo_record)

  -- `sort_by`, which is stable.
  unfoldable pub insert :
      SelectedPackage conda → List (SelectedPackage conda) → List (SelectedPackage conda)
  unfolding key_le
  insert c [] = c ∷ []
  insert c (d ∷ rest) =
      let further = insert c rest in if candidate_le c d then c ∷ d ∷ rest else d ∷ further

  unfoldable pub sort : List (SelectedPackage conda) → List (SelectedPackage conda)
  unfolding insert
  sort [] = []
  sort (c ∷ rest) = insert c (sort rest)

  -- `Vec::pop`
  unfoldable pub pop : List (SelectedPackage conda) → Option (SelectedPackage conda)
  pop [] = none
  pop (c ∷ []) = some c
  pop (c ∷ d ∷ rest) = pop (d ∷ rest)

  unfoldable pub select_candidate :
      RuntimeDataHeader
      → RuntimeUpdateConfig
      → Text
      → List (RepoDataRecord conda)
      → Checked (Option (SelectedPackage conda))
  unfolding offered collect sort pop
  select_candidate header update platform repodata = do
    package_name ← need (conda.parse_name update.package_name) invalid_package_name
    current_version ← need (conda.parse_version header.runtime_version) invalid_version
    candidates ←
        collect (offered package_name platform (current_version, update.build_number)) repodata
    accepted (pop (sort candidates))
