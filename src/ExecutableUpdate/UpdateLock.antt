-- ===== src/ExecutableUpdate/UpdateLock.antt =====
-- The lock that the coordinator of updates holds: `ensure_update_lock` of src/executable_update.rs.
use conda_ship.Prelude.{
  ℕ, none, some, [], ◌∷◌, ◌++◌, Text, codes, list_eq, number_eq, option_eq, ◌⊎◌, inl, inr,
}
use conda_ship.Fs.FilePath.{FilePath, join_text, path_eq}
use conda_ship.Fs.Failure.{Failure, not_regular, invalid_metadata_name, already_exists, lock_raced}
use conda_ship.Fs.Calls.{
  M, ◌>>=◌, ◌>>◌, fail, guard, from_option, attempt, is_regular, symlink_metadata, create_new,
  append, touch,
}
use conda_ship.RuntimeData.Header.{ownership_eq}
use conda_ship.Config.Metadata.{update_eq}
use conda_ship.ExecutableUpdate.Candidate.{lock_stem}

module _ (prefix : FilePath) (metadata_file : Text) where
  -- `ensure_update_lock`. Where another process creates the file first, the source starts over;
  -- `fuel` bounds how often.
  after_create : M (Unit {0}) → FilePath → Failure ⊎ Unit {0} → M (Unit {0})
  after_create again path (inr _) = do append path (0 ∷ []); touch
  after_create again path (inl already_exists) = again
  after_create again path (inl error) = fail error

  unfoldable pub ensure_update_lock : ℕ → M (Unit {0})
  unfolding after_create
  ensure_update_lock Prim.Native.Nat.zero = fail lock_raced
  ensure_update_lock (Prim.Native.Nat.suc fuel) =
      let again = ensure_update_lock fuel in
      do
        stem ← from_option (lock_stem metadata_file) invalid_metadata_name
        let path = join_text prefix (stem ++ codes ".update.lock")
        found ← symlink_metadata path
        elim found [
          | some k ↦ guard (is_regular k) not_regular
          | none ↦ (do created ← attempt (create_new path); after_create again path created)
        ]
