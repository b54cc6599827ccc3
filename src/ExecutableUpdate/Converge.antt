-- ===== src/ExecutableUpdate/Converge.antt =====
-- Any number of interrupted runs of `recover_pending` of src/executable_update.rs.
use conda_ship.Prelude.{true, false, List, [], ◌∷◌, Text, ◌≡◌, ◌⊎◌, inl, inr, refl}
use conda_ship.Fs.FilePath.{FilePath}
use conda_ship.Fs.Calls.{Files, file, Fault, Outcome, ok, err, crash}
use conda_ship.Fs.Triple.{After, start}
use conda_ship.ExecutableUpdate.Types.{ExecutableUpdateOutcome, Host}
use conda_ship.ExecutableUpdate.Setting.{
  Selection, Places, target_of, IsSound, InProgress, approved, begun, moved_over, installed,
  IsInstalled,
}
use conda_ship.ExecutableUpdate.Recover.{recover_pending_with-Runs, Finished}
use conda_ship.ExecutableUpdate.Commands.{recover_pending}

abbrev pub left_by : {A : Type 0} → Outcome A → Files
left_by (ok a w) = w.files
left_by (err e w) = w.files
left_by (crash w) = w.files

module _ (host : Host) (prefix : FilePath) (metadata_file : Text) where
  -- One run after the other, each with its own schedule of faults.
  unfoldable pub attempts : List (List Fault) → Files → Files
  attempts [] s = s
  attempts (faults ∷ rest) s =
      attempts rest (left_by (recover_pending host prefix metadata_file (start s faults)))

-- A run that is not disturbed, and then succeeds.
abbrev pub Succeeds : {A : Type 0} → (Files → Type 0) → Outcome A → Type 0
Succeeds Q (ok a w) = Q w.files
Succeeds Q (err e w) = ⊥
Succeeds Q (crash w) = ⊥

module _ (host : Host) (prefix : FilePath) (metadata_file : Text) (c : Selection)
    (p : Places prefix metadata_file c) (sound : IsSound host prefix metadata_file c p) where
  abbrev Progress : Files → Type 0
  Progress = InProgress host prefix metadata_file c p sound

  left_by-Progress :
      (o : Outcome ExecutableUpdateOutcome) (s : Files) (h : Progress s)
      → After false (Finished host prefix metadata_file c p sound h) Progress o
      → Progress (left_by o)
  left_by-Progress (ok a w) s h ((_, done), _) = installed (inl done.recorded) done.files
  left_by-Progress (err e w) s h k = k
  left_by-Progress (crash w) s h k = k

  -- Whatever fails, and wherever runs are cut off, the update stays one that can be finished.
  attempts-InProgress :
      (schedules : List (List Fault)) (s : Files)
      → Progress s
      → Progress (attempts host prefix metadata_file schedules s)
  unfolding attempts recover_pending
  attempts-InProgress [] s h = h
  attempts-InProgress (faults ∷ rest) s h = attempts-InProgress rest _ (
      left_by-Progress _ s h (
        (recover_pending_with-Runs host prefix metadata_file c p sound {quiet = false} false
            h).after
          faults tt))

  to_success :
      (s : Files) (h : Progress s) (o : Outcome ExecutableUpdateOutcome)
      → After true (Finished host prefix metadata_file c p sound h) Progress o
      → Succeeds (IsInstalled host prefix metadata_file c p sound) o
  to_success s h (ok a w) ((_, done), _) = done
  to_success s h (err e w) k = k
  to_success s h (crash w) k = k

  -- After any number of runs of `recover_pending` that were disturbed at any call, one undisturbed
  -- run succeeds and leaves the new executable in place, the candidate gone, and the new version
  -- recorded with nothing pending. It starts from an approved update of a managed runtime, in any
  -- state that an interrupted run leaves.
  pub recover_pending_converges :
      (schedules : List (List Fault)) (s : Files)
      → Progress s
      → Succeeds (IsInstalled host prefix metadata_file c p sound) (
          recover_pending host prefix metadata_file
            (start (attempts host prefix metadata_file schedules s) []))
  unfolding recover_pending
  recover_pending_converges schedules s h =
      let k = attempts-InProgress schedules s h in
      to_success _ k _ (
        (recover_pending_with-Runs host prefix metadata_file c p sound {quiet = true} false k).after
          [] refl)

  target_whole :
      (s : Files)
      → Progress s
      → (s (target_of c) ≡ file sound.old_bytes) ⊎ (s (target_of c) ≡ file sound.new_bytes)
  target_whole s (approved r f) = inl f.target
  target_whole s (begun r f) = inl f.target
  target_whole s (moved_over r f) = inr f.target
  target_whole s (installed r f) = inr f.target

  -- However often recovery of an approved update is disturbed, the executable is never missing and
  -- never torn: its file holds the old version or the new one, whole.
  pub attempts_whole_target :
      (schedules : List (List Fault)) (s : Files)
      → Progress s
      → (attempts host prefix metadata_file schedules s (target_of c) ≡ file sound.old_bytes)
        ⊎ (attempts host prefix metadata_file schedules s (target_of c) ≡ file sound.new_bytes)
  attempts_whole_target schedules s h = target_whole _ (attempts-InProgress schedules s h)
