-- ===== src/Examples/Witnesses.antt =====
-- The theorems on updates and on the metadata, applied to the runtime of `Updates`.
use conda_ship.Prelude.{true, false, List, [], ◌∷◌, ◌≡◌, ◌⊎◌, inl}
use conda_ship.Fs.Calls.{file, Fault, fails, crashes, fine}
use conda_ship.Fs.Triple.{Runs, start}
use conda_ship.Hash.{hex, is_sha256, is_sha256-hex}
use conda_ship.Config.Metadata.{PendingExecutablePhase}
use conda_ship.Config.Store.{
  metadata_path_for, temporary_metadata_path_for, backup_metadata_path_for, persist_at,
}
use conda_ship.Config.Holds.{Settled, Frame, Between}
use conda_ship.Config.Persist.{persist_at-Runs}
use conda_ship.ExecutableUpdate.Types.{ExecutableUpdateOutcome}
use conda_ship.ExecutableUpdate.Setting.{
  InProgress, OldInPlace, RecordsSettled, IsInstalled, pending_meta, committed, target_of,
}
use conda_ship.ExecutableUpdate.Recover.{Finished, recover_pending_with-Runs}
use conda_ship.ExecutableUpdate.Entry.{
  Staged, apply_pending-Runs, apply_pending_unapproved, mark_pending_ready-Runs,
}
use conda_ship.ExecutableUpdate.Discard.{
  Unapproved, staged, Dropped, IsIdle, discard_unapproved-Runs,
}
use conda_ship.ExecutableUpdate.Converge.{
  Succeeds, attempts, recover_pending_converges, attempts_whole_target,
}
use conda_ship.ExecutableUpdate.Commands.{
  apply_pending, recover_pending, recover_pending_with, mark_pending_ready, discard_unapproved,
}
use conda_ship.Examples.Codec.{json}
use conda_ship.Examples.Updates.{
  host, prefix, metadata_file, selection, places, sound, files_at, files_at-Settled,
  files_at-OldInPlace, files_ready, distinct, digest, old_file,
}

is_sha256-hex_example : is_sha256 (hex (digest.sha256 old_file)) ≡ true
is_sha256-hex_example = is_sha256-hex digest old_file

persist_at-Runs_example :
    Runs false
      (files_at PendingExecutablePhase.ready)
      (persist_at json
        (metadata_path_for prefix metadata_file)
        (temporary_metadata_path_for prefix metadata_file)
        (backup_metadata_path_for prefix metadata_file)
        (committed selection))
      (λ _ t.
        Settled json
          (metadata_path_for prefix metadata_file)
          (temporary_metadata_path_for prefix metadata_file)
          (backup_metadata_path_for prefix metadata_file)
          t
          (committed selection)
        × Frame
            (metadata_path_for prefix metadata_file)
            (temporary_metadata_path_for prefix metadata_file)
            (backup_metadata_path_for prefix metadata_file)
            (files_at PendingExecutablePhase.ready)
            t)
      (Between json
        (metadata_path_for prefix metadata_file)
        (temporary_metadata_path_for prefix metadata_file)
        (backup_metadata_path_for prefix metadata_file)
        (files_at PendingExecutablePhase.ready)
        (pending_meta selection PendingExecutablePhase.ready)
        (committed selection))
persist_at-Runs_example =
    persist_at-Runs json _ _ _ distinct _ (pending_meta selection PendingExecutablePhase.ready)
      (committed selection) (files_at-Settled PendingExecutablePhase.ready)

apply_pending-Runs_example :
    Runs true
      (files_at PendingExecutablePhase.ready)
      (apply_pending host prefix metadata_file)
      (Finished host prefix metadata_file selection places sound files_ready)
      (InProgress host prefix metadata_file selection places sound)
apply_pending-Runs_example =
    apply_pending-Runs host prefix metadata_file selection places sound {quiet = true} files_ready

recover_pending_with-Runs_example :
    Runs false
      (files_at PendingExecutablePhase.ready)
      (recover_pending_with host prefix metadata_file true)
      (Finished host prefix metadata_file selection places sound files_ready)
      (InProgress host prefix metadata_file selection places sound)
recover_pending_with-Runs_example =
    recover_pending_with-Runs host prefix metadata_file selection places sound {quiet = false} true
      files_ready

apply_pending_unapproved_example :
    Runs false
      (files_at PendingExecutablePhase.staged)
      (apply_pending host prefix metadata_file)
      (λ o t. ⊥)
      (Staged host prefix metadata_file selection places sound)
apply_pending_unapproved_example =
    apply_pending_unapproved host prefix metadata_file selection places sound (
      inl (files_at-Settled PendingExecutablePhase.staged),
      files_at-OldInPlace PendingExecutablePhase.staged,
    )

mark_pending_ready-Runs_example :
    Runs true
      (files_at PendingExecutablePhase.staged)
      (mark_pending_ready host prefix metadata_file)
      (λ o t.
        (o ≡ ExecutableUpdateOutcome.ready)
        × RecordsSettled host prefix metadata_file selection places sound t
            (pending_meta selection PendingExecutablePhase.ready)
        × OldInPlace host prefix metadata_file selection places sound t)
      (λ t.
        Staged host prefix metadata_file selection places sound t
        ⊎ InProgress host prefix metadata_file selection places sound t)
mark_pending_ready-Runs_example =
    mark_pending_ready-Runs host prefix metadata_file selection places sound {quiet = true} (
      inl (files_at-Settled PendingExecutablePhase.staged),
      files_at-OldInPlace PendingExecutablePhase.staged,
    )

-- Two runs that are cut off, in different places.
abbrev schedules : List (List Fault)
schedules = (fine ∷ fine ∷ fine ∷ crashes 0 ∷ []) ∷ (fine ∷ fails 0 ∷ []) ∷ []

recover_pending_converges_example :
    Succeeds (IsInstalled host prefix metadata_file selection places sound) (
      recover_pending host prefix metadata_file (
        start
          (attempts host prefix metadata_file schedules (files_at PendingExecutablePhase.ready))
          []))
recover_pending_converges_example =
    recover_pending_converges host prefix metadata_file selection places sound schedules _
      files_ready

attempts_whole_target_example :
    (attempts host prefix metadata_file schedules
        (files_at PendingExecutablePhase.ready)
        (target_of selection)
      ≡ file sound.old_bytes)
    ⊎ (attempts host prefix metadata_file schedules
          (files_at PendingExecutablePhase.ready)
          (target_of selection)
        ≡ file sound.new_bytes)
attempts_whole_target_example =
    attempts_whole_target host prefix metadata_file selection places sound schedules _ files_ready

-- A staged update that nobody approved.
files_staged :
    Unapproved host prefix metadata_file selection places sound
      (files_at PendingExecutablePhase.staged)
files_staged =
    staged (inl (files_at-Settled PendingExecutablePhase.staged))
      (files_at-OldInPlace PendingExecutablePhase.staged)

discard_unapproved-Runs_example :
    Runs true
      (files_at PendingExecutablePhase.staged)
      (discard_unapproved host prefix metadata_file)
      (λ o t.
        (o ≡ Dropped host prefix metadata_file selection places sound files_staged)
        × IsIdle host prefix metadata_file selection places sound t)
      (Unapproved host prefix metadata_file selection places sound)
discard_unapproved-Runs_example =
    discard_unapproved-Runs host prefix metadata_file selection places sound {quiet = true}
      files_staged
