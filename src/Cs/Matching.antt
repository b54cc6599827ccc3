-- ===== src/Cs/Matching.antt =====
-- The comparisons of src/runtime_update.rs between a package, its announcement and the runtime, where
-- they hold.
use conda_ship.Prelude.{
  ℕ, true, some, [], Text, Bytes, length, nat_eq, list_eq, option_eq, number_eq, ◌≡◌, refl, arith,
  ==-refl, option_beq,
}
use conda_ship.Fs.Checked.{accepted}
use conda_ship.Hash.{Digest, hex}
use conda_ship.RuntimeData.Header.{RuntimeDataHeader, RuntimeUpdateConfig, supports_direct_update}
use conda_ship.RuntimeUpdate.Packages.{Conda, PackageRecord}
use conda_ship.RuntimeUpdate.Archive.{decimal, IndexJson}
use conda_ship.RuntimeUpdate.Extracted.{
  same_identity, verify_file, stamp_matches, config_matches, is_self_contained,
}
use conda_ship.Cs.UpdatePackage.{UpdatePackageOutput}

nat_eq_refl : (n : ℕ) → nat_eq n n ≡ true
nat_eq_refl n = ground arith

pub verify_file-same :
    (digest : Digest) (contents : Bytes)
    → verify_file digest contents (hex (digest.sha256 contents)) (length contents) ≡ accepted tt
unfolding verify_file
verify_file-same digest contents =
    rw (nat_eq_refl (length contents), ==-refl (hex (digest.sha256 contents))) refl

module _ (conda : Conda) where
  -- What the channel says of a package is what the package says of itself.
  pub record IsAnnounced (record_ : PackageRecord conda) (built : UpdatePackageOutput)
      : Type 0 where
    pub name : record_.name ≡ built.package_name
    pub version : conda.parse_version built.runtime_version ≡ some record_.version
    pub build : record_.build ≡ decimal built.build_number
    pub build_number : record_.build_number ≡ built.build_number
    pub subdir : record_.subdir ≡ built.platform
    pub depends : record_.depends ≡ []

  pub identity_holds :
      (index : IndexJson conda) (r : PackageRecord conda) (name subdir : Text)
      → index.name ≡ name
      → r.name ≡ name
      → conda.version_eq index.version r.version ≡ true
      → index.build ≡ r.build
      → index.build_number ≡ r.build_number
      → index.subdir ≡ some subdir
      → r.subdir ≡ subdir
      → index.depends ≡ []
      → r.depends ≡ []
      → same_identity conda index r name subdir ≡ true
  unfolding same_identity option_beq
  identity_holds index r name subdir a b c d e f g h i =
      rw
        (
          a,
          b,
          c,
          d,
          e,
          f,
          g,
          h,
          i,
          ==-refl name,
          ==-refl r.build,
          nat_eq_refl r.build_number,
          ==-refl subdir,
        )
        refl

  module _ (header current : RuntimeDataHeader) (index : IndexJson conda) (subdir : Text) where
    pub stamp_holds :
        header.runtime_name ≡ current.runtime_name
        → header.artifact_name ≡ current.artifact_name
        → header.runtime_version ≡ conda.show_version index.version
        → is_self_contained conda header.artifact_layout ≡ true
        → header.platform ≡ subdir
        → stamp_matches conda header current index subdir ≡ true
    unfolding stamp_matches
    stamp_holds a b c d e =
        rw
          (
            a,
            b,
            c,
            d,
            e,
            ==-refl current.runtime_name,
            ==-refl current.artifact_name,
            ==-refl (conda.show_version index.version),
            ==-refl subdir,
          )
          refl

  pub config_holds :
      (u update : RuntimeUpdateConfig) (index : IndexJson conda)
      → u.channel ≡ update.channel
      → u.package_name ≡ update.package_name
      → supports_direct_update u ≡ true
      → u.build_number ≡ index.build_number
      → config_matches conda u update index ≡ true
  unfolding config_matches
  config_holds u update index a b c d =
      rw
        (
          c,
          a,
          b,
          d,
          ==-refl update.channel,
          ==-refl update.package_name,
          nat_eq_refl index.build_number,
        )
        refl
