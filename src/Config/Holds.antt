-- ===== src/Config/Holds.antt =====
-- What the files hold for a reader of the metadata, in a settled state and between two.
use conda_ship.Prelude.{Bool, some, ◌≡◌, ◌≢◌, ◌⊎◌, inl, inr, refl, Bytes}
use conda_ship.Fs.FilePath.{FilePath}
use conda_ship.Fs.Calls.{Node, missing, directory, file, Files, put_self, put_ne}
use conda_ship.Fs.Triple.{Runs, return-Runs, step_symlink_metadata, remove_file-Runs}
use conda_ship.Config.Metadata.{PrefixMetadata}
use conda_ship.Config.Store.{Json, remove_regular_file_if_present}

-- No entry, or a regular file.
abbrev pub IsPlain : Node → Type 0
IsPlain n = (n ≡ missing) ⊎ ((b : Bytes) × (n ≡ file b))

pub plain-ne-directory : {n : Node} → IsPlain n → n ≢ directory
plain-ne-directory (inl e) h = cc
plain-ne-directory (inr (b, e)) h = cc

-- The three files hold three different paths.
pub record AreDistinct (path tmp bak : FilePath) : Type 0 where
  pub path_tmp : path ≢ tmp
  pub path_bak : path ≢ bak
  pub tmp_bak : tmp ≢ bak

-- No path but the three has changed.
abbrev pub Frame : FilePath → FilePath → FilePath → Files → Files → Type 0
Frame path tmp bak s t = (q : FilePath) → q ≢ path → q ≢ tmp → q ≢ bak → t q ≡ s q

module _ {quiet : Bool} {s : Files} {E : Files → Type 0} (p : FilePath) where
  pub remove_regular_file_if_present-Runs :
      IsPlain (s p)
      → E s
      → Runs quiet s
          (remove_regular_file_if_present p)
          (λ _ t. (t p ≡ missing) × ((q : FilePath) → q ≢ p → t q ≡ s q))
          E
  unfolding remove_regular_file_if_present
  remove_regular_file_if_present-Runs (inl absent) h =
      step_symlink_metadata p _ h (rw absent (return-Runs tt (absent, λ q _. refl)))
  remove_regular_file_if_present-Runs (inr (b, there)) h = step_symlink_metadata p _ h (
      rw there
        (remove_file-Runs p b there h (put_self missing s p, λ q ne. put_ne missing s p q ne)))

module _ (json : Json) (path tmp bak : FilePath) where
  -- The metadata is in its file.
  pub record Settled (s : Files) (m : PrefixMetadata) : Type 0 where
    pub bytes : Bytes
    pub at_path : s path ≡ file bytes
    pub parsed : json.parse bytes ≡ some m
    pub tmp_plain : IsPlain (s tmp)
    pub bak_plain : IsPlain (s bak)

  -- A replacement has stopped between its two renames.
  pub record Interrupted (s : Files) (m : PrefixMetadata) : Type 0 where
    pub bytes : Bytes
    pub gone : s path ≡ missing
    pub at_tmp : s tmp ≡ file bytes
    pub parsed : json.parse bytes ≡ some m
    pub bak_plain : IsPlain (s bak)

  -- What the next reader of the metadata will find.
  abbrev pub Holds : Files → PrefixMetadata → Type 0
  Holds s m = Settled s m ⊎ Interrupted s m

  -- Both the old and the new metadata are whole, and one of them will be read.
  abbrev pub Between : Files → PrefixMetadata → PrefixMetadata → Files → Type 0
  Between s old new t = (Holds t old ⊎ Holds t new) × Frame path tmp bak s t
