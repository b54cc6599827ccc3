-- ===== src/RuntimeUpdate/Packages.antt =====
-- The packages of a channel as src/runtime_update.rs sees them. Names and versions of packages are
-- those of the rattler libraries.
use Prim.Native.Nat.{compare, Ordering}
use Prim.Native.Nat.Ordering.{lt, eq, gt}
use conda_ship.Prelude.{ℕ, Bool, true, false, Option, List, Text, Bytes, ◌≡◌}

abbrev pub reverse : Ordering → Ordering
reverse lt = gt
reverse eq = eq
reverse gt = lt

abbrev pub is_le : Ordering → Bool
is_le gt = false
is_le _ = true

abbrev pub then_with : Ordering → Ordering → Ordering
then_with eq second = second
then_with first _ = first

-- What is used of rattler_conda_types, with the laws of `Ord` for versions.
pub record Conda : Type 1 where
  pub Version : Type 0
  pub parse_version : Text → Option Version
  pub show_version : Version → Text
  pub version_eq : Version → Version → Bool
  pub cmp : Version → Version → Ordering
  pub cmp_reverse : (a b : Version) → cmp b a ≡ reverse (cmp a b)
  pub cmp_trans :
      (a b c : Version) → is_le (cmp a b) ≡ true → is_le (cmp b c) ≡ true → is_le (cmp a c) ≡ true
  pub parse_name : Text → Option Text

module _ (conda : Conda) where
  pub record PackageRecord : Type 0 where
    pub name : Text
    pub version : conda.Version
    pub build : Text
    pub build_number : ℕ
    pub subdir : Text
    pub depends : List Text
    pub sha256 : Option Bytes
    pub size : Option ℕ

  pub record RepoDataRecord : Type 0 where
    pub package_record : PackageRecord
    pub identifier : Text

  pub record SelectedPackage : Type 0 where
    pub repo_record : RepoDataRecord
    pub filename : Text
    pub sha256 : Text
    pub size : ℕ

  -- A version with a build number, compared as the tuple is.
  abbrev pub Key : Type 0
  Key = conda.Version × ℕ

  abbrev pub key_cmp : Key → Key → Ordering
  key_cmp a b = then_with (conda.cmp a.0 b.0) (compare a.1 b.1)

  unfoldable pub key_le : Key → Key → Bool
  key_le a b = is_le (key_cmp a b)

  abbrev pub key : RepoDataRecord → Key
  key r = (r.package_record.version, r.package_record.build_number)
