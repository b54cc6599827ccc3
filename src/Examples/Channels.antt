-- ===== src/Examples/Channels.antt =====
-- A channel with a few packages, and the theorems on the selection.
use Prim.Native.Nat.{compare}
use conda_ship.Prelude.{
  ℕ, Bool, true, Option, some, List, [], ◌∷◌, Text, codes, replicate, length, ◌≡◌, refl, list_beq,
  number_eq, list_eq, arith, ends_with, is_control,
}
use conda_ship.Hash.{hex}
use conda_ship.Fs.Checked.{accepted}
use conda_ship.RuntimeData.Header.{RuntimeDataHeader}
use conda_ship.RuntimeUpdate.Packages.{
  Conda, RepoDataRecord, SelectedPackage, key_le, reverse, is_le,
}
use conda_ship.RuntimeUpdate.Select.{
  describe, validate_package_filename, offered, select_candidate, sort, pop, insert, collect,
}
use conda_ship.RuntimeUpdate.Filenames.{validate_package_filename-IsArchiveName}
use conda_ship.RuntimeUpdate.Newest.{
  All, IsDescribable, IsComplete, Selects, is_wanted, select_candidate-Selects,
  select_candidate-IsComplete,
}
use conda_ship.Examples.Updates.{header_of, update_config}

-- Versions are compared by their length.
pub cmp_reverse :
    (a b : Text) → compare (length b) (length a) ≡ reverse (compare (length a) (length b))
cmp_reverse a b = ground arith

pub cmp_trans :
    (a b c : Text)
    → is_le (compare (length a) (length b)) ≡ true
    → is_le (compare (length b) (length c)) ≡ true
    → is_le (compare (length a) (length c)) ≡ true
cmp_trans a b c h k = ground arith

abbrev pub conda : Conda
conda = record {
  Version = Text;
  parse_version = some;
  show_version = λ v. v;
  version_eq = list_beq;
  cmp = λ a b. compare (length a) (length b);
  cmp_reverse = cmp_reverse;
  cmp_trans = cmp_trans;
  parse_name = some;
}

abbrev package_with : Text → ℕ → RepoDataRecord conda
package_with version build_number = record {
  package_record = record {
    name = codes "demo-runtime";
    version = version;
    build = codes "0";
    build_number = build_number;
    subdir = codes "linux-64";
    depends = [];
    sha256 = some (replicate 32 0);
    size = some 10;
  };
  identifier = codes "demo-runtime.conda";
}

abbrev older : RepoDataRecord conda
older = package_with (codes "1.2.0.1") 0

abbrev newer : RepoDataRecord conda
newer = package_with (codes "1.2.0.0.1") 4

abbrev least : RepoDataRecord conda
least = package_with (codes "1") 9

abbrev repodata : List (RepoDataRecord conda)
repodata = older ∷ newer ∷ least ∷ []

abbrev selected : RepoDataRecord conda → SelectedPackage conda
selected r = record {
  repo_record = r;
  filename = codes "demo-runtime.conda";
  sha256 = replicate 64 b'0';
  size = 10;
}

abbrev header : RuntimeDataHeader
header = header_of (codes "1.0")

abbrev linux : Text
linux = codes "linux-64"

abbrev is_offered : RepoDataRecord conda → Bool
is_offered =
    is_wanted conda header update_config linux (codes "demo-runtime") (codes "1.0") refl refl

describable :
    (version : Text) (build_number : ℕ)
    → IsDescribable conda is_offered (package_with version build_number)
unfolding validate_package_filename ends_with is_control list_beq
describable version build_number = record {
  size = 10;
  sized = refl;
  digest = replicate 32 0;
  digested = refl;
  archive = (validate_package_filename-IsArchiveName (codes "demo-runtime.conda")).0 refl;
}

complete : All (IsComplete conda is_offered) repodata
complete = (λ _. describable _ _, (λ _. describable _ _, (λ _. describable _ _, tt)))

selected-newer :
    select_candidate conda header update_config linux repodata ≡ accepted (some (selected newer))
unfolding select_candidate offered collect describe validate_package_filename ends_with is_control
    list_beq hex sort insert pop key_le
selected-newer = refl

select_candidate-Selects_example :
    (o : Option (SelectedPackage conda)) × (select_candidate conda header update_config linux
        repodata
      ≡ accepted o)
    × Selects conda is_offered repodata o
select_candidate-Selects_example =
    select_candidate-Selects conda header update_config linux (codes "demo-runtime") (codes "1.0")
      refl refl repodata complete

select_candidate-IsComplete_example :
    All (IsComplete conda is_offered) repodata
    × Selects conda is_offered repodata (some (selected newer))
select_candidate-IsComplete_example =
    select_candidate-IsComplete conda header update_config linux (codes "demo-runtime")
      (codes "1.0") refl refl repodata (some (selected newer)) selected-newer
