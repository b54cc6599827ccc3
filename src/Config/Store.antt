-- ===== src/Config/Store.antt =====
-- Reading and writing the metadata file: `persist_metadata_for`, `read_metadata_for` and what they
-- call in src/config.rs. The JSON of serde is a parameter.
use conda_ship.Prelude.{
  Option, none, some, [], ◌∷◌, Text, Bytes, codes, ◌==◌, list_eq, number_eq, if◌then◌else◌, ◌⊎◌,
  inl, inr, ◌≡◌, ◌++◌,
}
use conda_ship.Fs.FilePath.{FilePath, join_text, with_extension}
use conda_ship.Fs.Failure.{Failure, not_regular, wrong_metadata_file, unparsable}
use conda_ship.Fs.Calls.{
  M, ◌>>=◌, ◌>>◌, return, fail, guard, from_option, attempt, is_regular, symlink_metadata, exists,
  read_file, rename, remove_file, create_new, append, touch,
}
use conda_ship.Config.Metadata.{PrefixMetadata}

-- serde_json for the metadata record. What it writes it reads, also in front of a final newline.
pub record Json : Type 0 where
  pub parse : Bytes → Option PrefixMetadata
  pub render : PrefixMetadata → Bytes
  pub parse-render : (m : PrefixMetadata) → parse (render m ++ b'\n' ∷ []) ≡ some m

unfoldable pub metadata_path_for : FilePath → Text → FilePath
metadata_path_for prefix metadata_file = join_text prefix metadata_file

unfoldable pub temporary_metadata_path_for : FilePath → Text → FilePath
temporary_metadata_path_for prefix metadata_file =
    with_extension (metadata_path_for prefix metadata_file) (codes "tmp")

unfoldable pub backup_metadata_path_for : FilePath → Text → FilePath
backup_metadata_path_for prefix metadata_file =
    with_extension (metadata_path_for prefix metadata_file) (codes "bak")

unfoldable pub remove_regular_file_if_present : FilePath → M (Unit {0})
remove_regular_file_if_present p = do
  found ← symlink_metadata p
  elim found [
    | none ↦ return tt
    | some k ↦ if is_regular k then remove_file p else fail not_regular
  ]

unfoldable pub invalidate_metadata_for : FilePath → Text → M (Unit {0})
invalidate_metadata_for prefix metadata_file = do
  remove_regular_file_if_present (metadata_path_for prefix metadata_file)
  remove_regular_file_if_present (temporary_metadata_path_for prefix metadata_file)
  remove_regular_file_if_present (backup_metadata_path_for prefix metadata_file)

-- The tail of `persist_metadata_for`, on the three paths: what follows a failed rename.
unfoldable pub roll_back : FilePath → FilePath → Failure ⊎ Unit {0} → M (Unit {0})
roll_back path backup_path (inr _) = return tt
roll_back path backup_path (inl second) = do
  rollback ← attempt (rename backup_path path)
  elim rollback [ inr _ ↦ fail second | inl third ↦ fail third ]

unfoldable pub replace_by_backup :
    FilePath → FilePath → FilePath → Failure ⊎ Unit {0} → M (Unit {0})
replace_by_backup path temporary_path backup_path (inr _) = return tt
replace_by_backup path temporary_path backup_path (inl error) = do
  present ← exists path
  guard present error
  remove_regular_file_if_present backup_path
  rename path backup_path
  replaced ← attempt (rename temporary_path path)
  roll_back path backup_path replaced

module _ (json : Json) where
  unfoldable pub persist_at : FilePath → FilePath → FilePath → PrefixMetadata → M (Unit {0})
  unfolding roll_back replace_by_backup
  persist_at path temporary_path backup_path meta = do
    remove_regular_file_if_present temporary_path
    create_new temporary_path
    append temporary_path (json.render meta)
    append temporary_path (b'\n' ∷ [])
    touch
    replaced ← attempt (rename temporary_path path)
    replace_by_backup path temporary_path backup_path replaced
    remove_regular_file_if_present backup_path

  unfoldable pub persist_metadata_for : FilePath → Text → PrefixMetadata → M (Unit {0})
  persist_metadata_for prefix metadata_file meta = do
    guard (meta.metadata_file == metadata_file) wrong_metadata_file
    persist_at (metadata_path_for prefix metadata_file)
        (temporary_metadata_path_for prefix metadata_file)
        (backup_metadata_path_for prefix metadata_file) meta

  unfoldable pub read_metadata_from_path : FilePath → M PrefixMetadata
  read_metadata_from_path path = do
    bytes ← read_file path
    from_option (json.parse bytes) unparsable

  unfoldable pub read_regular_metadata_if_present : FilePath → M (Option PrefixMetadata)
  read_regular_metadata_if_present path = do
    found ← symlink_metadata path
    elim found [
      | none ↦ return none
      | some k ↦
          if is_regular k
          then (do meta ← read_metadata_from_path path; return (some meta))
          else fail not_regular
    ]

  settle_restore : FilePath → PrefixMetadata → Failure ⊎ Unit {0} → M PrefixMetadata
  settle_restore final_path meta (inr _) = return meta
  settle_restore final_path meta (inl error) = do
    current ← read_regular_metadata_if_present final_path
    from_option current error

  unfoldable pub restore_metadata_path : FilePath → FilePath → PrefixMetadata → M PrefixMetadata
  unfolding settle_restore
  restore_metadata_path recovery_path final_path meta = do
    renamed ← attempt (rename recovery_path final_path)
    settle_restore final_path meta renamed

  -- The three attempts of `read_metadata_for`, the last first.
  read_backup : FilePath → FilePath → Option PrefixMetadata → M PrefixMetadata
  read_backup path backup_path none = read_metadata_from_path path
  read_backup path backup_path (some meta) = restore_metadata_path backup_path path meta

  read_temporary : FilePath → FilePath → FilePath → Option PrefixMetadata → M PrefixMetadata
  read_temporary path temporary_path backup_path (some meta) = do
    restored ← restore_metadata_path temporary_path path meta
    remove_regular_file_if_present backup_path
    return restored
  read_temporary path temporary_path backup_path none = do
    found ← read_regular_metadata_if_present backup_path
    read_backup path backup_path found

  read_primary : FilePath → FilePath → FilePath → Option PrefixMetadata → M PrefixMetadata
  read_primary path temporary_path backup_path (some meta) = return meta
  read_primary path temporary_path backup_path none = do
    found ← read_regular_metadata_if_present temporary_path
    read_temporary path temporary_path backup_path found

  unfoldable pub read_at : FilePath → FilePath → FilePath → M PrefixMetadata
  unfolding read_backup read_temporary read_primary
  read_at path temporary_path backup_path = do
    found ← read_regular_metadata_if_present path
    read_primary path temporary_path backup_path found

  unfoldable pub read_metadata_for : FilePath → Text → M PrefixMetadata
  read_metadata_for prefix metadata_file =
      read_at (metadata_path_for prefix metadata_file)
        (temporary_metadata_path_for prefix metadata_file)
        (backup_metadata_path_for prefix metadata_file)
