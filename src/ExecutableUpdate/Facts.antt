-- ===== src/ExecutableUpdate/Facts.antt =====
-- What the checks of an update find, for files that are as they should be.
use conda_ship.Prelude.{
  Bool, true, false, ◌||◌, Option, none, some, Text, Bytes, list_eq, number_eq, ==-refl, ==-ne,
  is_empty, ◌≡◌, ◌≢◌, refl,
}
use conda_ship.Hash.{hex, is_sha256}
use conda_ship.Fs.FilePath.{FilePath, join, parent, file_name}
use conda_ship.Fs.Calls.{Files, missing, file}
use conda_ship.Fs.Triple.{
  return-Runs, step_symlink_metadata, step_read_file, step_touch, touch-Runs,
}
use conda_ship.Fs.Reads.{Reads, step_reads, step_guard, step_from_option}
use conda_ship.RuntimeData.Header.{RuntimeDataHeader, UpdateOwnership, direct}
use conda_ship.Config.Metadata.{PendingExecutableUpdate, ExecutableUpdateMetadata, PrefixMetadata}
use conda_ship.ExecutableUpdate.Types.{Host, stamped, FileVersion, absent, old, new}
use conda_ship.ExecutableUpdate.Stamp.{
  acquire, lock_path, validate_sha256, regular_file_present, adjacent_name, adjacent_update_path,
  direct_update, direct_only, sha256_hex, verify_stamped_file, stamp_matches, check_bundle,
}
use conda_ship.ExecutableUpdate.Classify.{classify_target, classify_role_file}

abbrev pub IsWhole : Option Bool → Type 0
IsWhole none = Unit {0}
IsWhole (some b) = b ≡ true

module _ (host : Host) where
  -- A file that `verify_stamped_file` accepts for this version and digest.
  pub record Verified (meta : PrefixMetadata) (u : ExecutableUpdateMetadata) (b : Bytes)
      (version digest : Text) : Type 0 where
    pub hashed : hex (host.digest.sha256 b) ≡ digest
    pub valid : is_sha256 digest ≡ true
    pub header : RuntimeDataHeader
    pub bundle : Option Bool
    pub read : host.stamp b ≡ stamped header bundle
    pub matched : stamp_matches meta u version header ≡ true
    pub bundle_whole : IsWhole bundle

module _ {quiet : Bool} {s : Files} {E : Files → Type 0} (h : E s) where
  pub acquire-Reads :
      (prefix directory : FilePath) (name : Text)
      → parent prefix ≡ some directory
      → file_name prefix ≡ some name
      → Reads quiet s E (acquire prefix) tt
  unfolding acquire lock_path
  acquire-Reads prefix directory name above named =
      step_reads _ _
        (step_from_option _ _ directory _ above
          (step_from_option _ _ name _ named (return-Runs _ (refl, refl))))
        (step_touch _ h (step_touch _ h (touch-Runs h (refl, refl))))

  pub present-Reads :
      (p : FilePath) (b : Bytes) → s p ≡ file b → Reads quiet s E (regular_file_present p) true
  unfolding regular_file_present
  present-Reads p b e = step_symlink_metadata p _ h (rw e (return-Runs true (refl, refl)))

  pub absent-Reads : (p : FilePath) → s p ≡ missing → Reads quiet s E (regular_file_present p) false
  unfolding regular_file_present
  absent-Reads p e = step_symlink_metadata p _ h (rw e (return-Runs false (refl, refl)))

  pub adjacent-Reads :
      (target directory : FilePath) (name digest suffix : Text)
      → is_sha256 digest ≡ true
      → parent target ≡ some directory
      → file_name target ≡ some name
      → Reads quiet s E
          (adjacent_update_path target digest suffix)
          (join directory (adjacent_name name digest suffix))
  unfolding adjacent_update_path validate_sha256
  adjacent-Reads target directory name digest suffix valid above named = step_guard _ _ _ valid (
      step_from_option _ _ directory _ above
        (step_from_option _ _ name _ named (return-Runs _ (refl, refl))))

  direct_only-Reads : (o : UpdateOwnership) → o ≡ direct → Reads quiet s E (direct_only o) tt
  unfolding direct_only
  direct_only-Reads o e = rw e (return-Runs tt (refl, refl))

  pub direct_update-Reads :
      (meta : PrefixMetadata) (u : ExecutableUpdateMetadata)
      → meta.update ≡ some u
      → u.ownership ≡ direct
      → u.executable.rooted ≡ true
      → (is_empty u.artifact_name || (is_empty u.channel || is_empty u.package_name)) ≡ false
      → is_sha256 u.sha256 ≡ true
      → Reads quiet s E (direct_update meta) u
  unfolding direct_update validate_sha256
  direct_update-Reads meta u recorded owned absolute complete valid =
      step_from_option _ _ u _ recorded (
        step_reads _ tt (direct_only-Reads u.ownership owned) (
          step_guard _ _ _ absolute
            (step_guard _ _ _ (rw complete) (step_guard _ _ _ valid (return-Runs u (refl, refl))))))

module _ (host : Host) {quiet : Bool} {s : Files} {E : Files → Type 0} (h : E s) where
  pub sha256_hex-Reads :
      (p : FilePath) (b : Bytes)
      → s p ≡ file b
      → Reads quiet s E (sha256_hex host p) (hex (host.digest.sha256 b))
  unfolding sha256_hex
  sha256_hex-Reads p b e = step_read_file p _ b e h (return-Runs _ (refl, refl))

  bundle-Reads :
      (p : FilePath) (b : Bytes)
      → s p ≡ file b
      → (bundle : Option Bool) → IsWhole bundle
      → Reads quiet s E (check_bundle host p bundle) tt
  unfolding check_bundle
  bundle-Reads p b e none _ = return-Runs tt (refl, refl)
  bundle-Reads p b e (some whole) ok =
      step_read_file p _ b e h (rw ok (return-Runs tt (refl, refl)))

  pub verify-Reads :
      (meta : PrefixMetadata) (u : ExecutableUpdateMetadata) (p : FilePath) (b : Bytes)
      (version digest : Text)
      → s p ≡ file b
      → Verified host meta u b version digest
      → Reads quiet s E (verify_stamped_file host meta u p version digest) tt
  unfolding verify_stamped_file validate_sha256
  verify-Reads meta u p b version digest e v = step_guard _ _ _ v.valid (
      step_reads _ digest (rw (← v.hashed) (sha256_hex-Reads p b e)) (
        step_guard _ _ _ (==-refl digest) (
          step_read_file p _ b e h
            (rw v.read (step_guard _ _ _ v.matched (bundle-Reads p b e v.bundle v.bundle_whole))))))

  module _ (meta : PrefixMetadata) (u : ExecutableUpdateMetadata)
      (p : PendingExecutableUpdate) where
    pub target_old-Reads :
        (b : Bytes)
        → s u.executable ≡ file b
        → Verified host meta u b meta.version u.sha256
        → Reads quiet s E (classify_target host meta u p) old
    unfolding classify_target
    target_old-Reads b e v = step_reads _ true (present-Reads h u.executable b e) (
        step_reads _ u.sha256 (rw (← v.hashed) (sha256_hex-Reads u.executable b e)) (
          rw (==-refl u.sha256) (
            step_reads _ tt (verify-Reads meta u u.executable b meta.version u.sha256 e v)
              (return-Runs old (refl, refl)))))

    pub target_new-Reads :
        (b : Bytes)
        → s u.executable ≡ file b
        → Verified host meta u b p.version p.executable_sha256
        → p.executable_sha256 ≢ u.sha256
        → Reads quiet s E (classify_target host meta u p) new
    unfolding classify_target
    target_new-Reads b e v differ = step_reads _ true (present-Reads h u.executable b e) (
        step_reads _ p.executable_sha256 (rw (← v.hashed) (sha256_hex-Reads u.executable b e)) (
          rw (==-ne p.executable_sha256 u.sha256 differ) (
            rw (==-refl p.executable_sha256) (
              step_reads _ tt (verify-Reads meta u u.executable b p.version p.executable_sha256 e v)
                (return-Runs new (refl, refl))))))

    pub role_present-Reads :
        (at : FilePath) (b : Bytes) (version digest : Text) (is : FileVersion)
        → s at ≡ file b
        → Verified host meta u b version digest
        → Reads quiet s E (classify_role_file host meta u at version digest is) is
    unfolding classify_role_file
    role_present-Reads at b version digest is e v = step_reads _ true (present-Reads h at b e) (
        step_reads _ tt (verify-Reads meta u at b version digest e v) (return-Runs is (refl, refl)))

    pub role_absent-Reads :
        (at : FilePath) (version digest : Text) (is : FileVersion)
        → s at ≡ missing
        → Reads quiet s E (classify_role_file host meta u at version digest is) absent
    unfolding classify_role_file
    role_absent-Reads at version digest is e =
        step_reads _ false (absent-Reads h at e) (return-Runs absent (refl, refl))
