-- ===== src/Examples/Managed.antt =====
-- A runtime that another program manages.
use conda_ship.Prelude.{false, none, some, [], ◌∷◌, codes, inl, refl, list_beq, split_on}
use conda_ship.Fs.FilePath.{path_beq, with_extension, join_text}
use conda_ship.Fs.Calls.{Files, file}
use conda_ship.Fs.Triple.{Runs}
use conda_ship.RuntimeData.Header.{direct, external}
use conda_ship.Config.Metadata.{ExecutableUpdateMetadata, PrefixMetadata}
use conda_ship.Config.Store.{
  metadata_path_for, temporary_metadata_path_for, backup_metadata_path_for,
}
use conda_ship.ExecutableUpdate.Installation.{record_installation}
use conda_ship.ExecutableUpdate.External.{HoldsHere, Untouched, external_is_kept}
use conda_ship.Examples.Codec.{json}
use conda_ship.Examples.Updates.{
  host, prefix, metadata_file, executable, old_file, selection, distinct, tree, recorded_bytes,
}

abbrev managed : ExecutableUpdateMetadata
managed = record (selection.installed) { ownership = external }

abbrev managed_meta : PrefixMetadata
managed_meta = record (selection.base) { update = some managed }

abbrev managed_files : Files
managed_files = tree (
    (metadata_path_for prefix metadata_file, file (recorded_bytes managed_meta))
    ∷ (executable, file old_file)
    ∷ [])

managed_files-HoldsHere : HoldsHere host prefix metadata_file distinct managed_meta managed_files
unfolding join_text split_on metadata_path_for temporary_metadata_path_for backup_metadata_path_for
    with_extension path_beq list_beq
managed_files-HoldsHere = inl (record {
  bytes = recorded_bytes managed_meta;
  at_path = refl;
  parsed = json.parse-render managed_meta;
  tmp_plain = inl refl;
  bak_plain = inl refl;
})

external_is_kept_example :
    Runs false managed_files
      (record_installation host prefix metadata_file executable direct (codes "pip") none)
      (λ o t. ⊥)
      (Untouched host prefix metadata_file distinct managed_meta managed_files)
external_is_kept_example =
    external_is_kept host prefix metadata_file distinct managed_meta managed (codes "pip") none
      executable refl refl managed_files-HoldsHere
