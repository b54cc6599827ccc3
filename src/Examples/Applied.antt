-- ===== src/Examples/Applied.antt =====
-- A staged update beside the lock of the coordinator, and the theorems on applying it.
use conda_ship.Prelude.{
  true, false, some, [], ◌∷◌, ◌++◌, codes, ◌≡◌, refl, inl, list_beq, list_eq, number_eq, split_on,
}
use conda_ship.Fs.FilePath.{path_eq, path_beq, with_extension, join_text}
use conda_ship.Fs.Calls.{Files, file}
use conda_ship.Fs.Triple.{Runs}
use conda_ship.Hash.{hex}
use conda_ship.Config.Metadata.{PendingExecutablePhase}
use conda_ship.Config.Store.{
  metadata_path_for, temporary_metadata_path_for, backup_metadata_path_for,
}
use conda_ship.ExecutableUpdate.Types.{Host}
use conda_ship.ExecutableUpdate.Candidate.{lock_stem}
use conda_ship.ExecutableUpdate.Stamp.{adjacent_name}
use conda_ship.ExecutableUpdate.Setting.{
  RecordsSettled, OldInPlace, IsInstalled, pending_meta, candidate_of,
}
use conda_ship.RuntimeUpdate.Helper.{run_apply_helper}
use conda_ship.RuntimeUpdate.Applying.{Resumable, run_apply_helper_unlocked, run_apply_helper-Runs}
use conda_ship.Examples.Updates.{
  host, prefix, metadata_file, selection, places, sound, tree, recorded_bytes, executable, old_file,
  new_file, update_config,
}
use conda_ship.Examples.Codec.{json}

abbrev files : Files
files = tree (
    (join_text prefix (codes ".demo" ++ codes ".update.lock"), file [])
    ∷ (
      metadata_path_for prefix metadata_file,
      file (recorded_bytes (pending_meta selection PendingExecutablePhase.staged)),
    )
    ∷ (executable, file old_file)
    ∷ (candidate_of places, file new_file)
    ∷ [])

recorded :
    RecordsSettled host prefix metadata_file selection places sound files
      (pending_meta selection PendingExecutablePhase.staged)
unfolding join_text split_on metadata_path_for temporary_metadata_path_for backup_metadata_path_for
    with_extension path_beq list_beq adjacent_name
recorded = record {
  bytes = recorded_bytes (pending_meta selection PendingExecutablePhase.staged);
  at_path = refl;
  parsed = json.parse-render (pending_meta selection PendingExecutablePhase.staged);
  tmp_plain = inl refl;
  bak_plain = inl refl;
}

in_place : OldInPlace host prefix metadata_file selection places sound files
unfolding join_text split_on metadata_path_for path_beq list_beq adjacent_name hex
in_place = record { target = refl; candidate = refl; backup = refl }

lock_named : lock_stem metadata_file ≡ some (codes ".demo")
unfolding lock_stem list_beq
lock_named = refl

lock_there : files (join_text prefix (codes ".demo" ++ codes ".update.lock")) ≡ file []
unfolding join_text split_on path_beq list_beq
lock_there = refl

run_apply_helper-Runs_example :
    Runs true files
      (run_apply_helper host prefix)
      (λ _ t. IsInstalled host prefix metadata_file selection places sound t)
      (Resumable host prefix selection places sound)
run_apply_helper-Runs_example =
    run_apply_helper-Runs host prefix selection places sound {quiet = true} update_config refl
      (codes ".demo") lock_named [] lock_there refl refl refl (inl recorded, in_place)

abbrev unlocked_host : Host
unlocked_host = record host { update_lock_held = false }

run_apply_helper_unlocked_example :
    Runs false files (run_apply_helper unlocked_host prefix) (λ _ t. ⊥) (λ t. t ≡ files)
run_apply_helper_unlocked_example = run_apply_helper_unlocked unlocked_host prefix refl
