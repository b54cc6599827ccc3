-- ===== src/RuntimeUpdate/Applying.antt =====
-- Applying an update through the helper of src/runtime_update.rs: no step without the coordination
-- lock, and the composition of approval and replacement.
use conda_ship.Prelude.{
  Bool, true, false, Option, none, some, List, [], ◌∷◌, ◌++◌, Text, Bytes, codes, ◌≡◌, refl, sym,
  ◌⊎◌, inl, inr,
}
use conda_ship.Fs.FilePath.{FilePath, join_text}
use conda_ship.Fs.Failure.{Failure, not_found, io_failed, lock_not_held}
use conda_ship.Fs.Calls.{
  Node, missing, directory, file, link, Files, Fault, fine, fails, crashes, M, ◌>>=◌, from_option,
  syscall, whole, Answer, refused, follow, read_file,
}
use conda_ship.Fs.Triple.{
  touch-Runs, Runs, After, bind, weaken, step, stop-Runs, step_return, step_read_file, step_touch,
  return-Runs, fail-Runs,
}
use conda_ship.Fs.Reads.{Reads, step_reads, step_from_option}
use conda_ship.RuntimeData.Header.{RuntimeUpdateConfig}
use conda_ship.Config.Metadata.{PendingExecutablePhase}
use conda_ship.ExecutableUpdate.Types.{Host}
use conda_ship.ExecutableUpdate.Candidate.{lock_stem, update_lock_is_held}
use conda_ship.ExecutableUpdate.Setting.{
  Selection, pending_meta, Places, IsSound, InProgress, approved, installed, IsInstalled,
}
use conda_ship.ExecutableUpdate.Steps.{Frame-OldInPlace}
use conda_ship.ExecutableUpdate.Recover.{read-Runs, ready-Reads}
use conda_ship.ExecutableUpdate.Entry.{Staged, apply_pending-Runs, mark_pending_ready-Runs}
use conda_ship.RuntimeUpdate.Helper.{
  require_update_lock, read_ready_metadata, apply_marked, report_applied, apply_action,
  run_apply_helper,
}

-- A call that the system refuses ends the code.
refused_stops :
    {A B : Type 0} {s : Files} {R : B → Files → Type 0} {E : Files → Type 0}
    (act : Files → Answer A) (f : A → M B) (e : Failure)
    → act s ≡ refused e
    → E s
    → Runs false s (syscall whole act >>= f) R E
unfolding syscall ◌>>=◌
refused_stops {B = B} {s = s} {R = R} {E = E} act f e refusal h = record { after = try-after }
  where
    try-after :
        (faults : List Fault)
        → Unit {0}
        → After false R E ((syscall whole act >>= f) (record { files = s; faults = faults }))
    try-after [] calm = rw (refusal, After) h
    try-after (fine ∷ faults) calm = rw (refusal, After) h
    try-after (fails n ∷ faults) calm = h
    try-after (crashes n ∷ faults) calm = h

-- Reading changes nothing, whatever it finds.
read_any :
    {B : Type 0} {s : Files} {R : B → Files → Type 0} {E : Files → Type 0} (p : FilePath)
    (f : Bytes → M B)
    → E s
    → ((b : Bytes) → Runs false s (f b) R E)
    → Runs false s (read_file p >>= f) R E
unfolding read_file
read_any {B} {s} {R} {E} p f h k = sort (follow s p) refl
  where
    sort : (n : Node) → follow s p ≡ n → Runs false s (read_file p >>= f) R E
    sort missing e = refused_stops _ f not_found (rw e refl) h
    sort directory e = refused_stops _ f io_failed (rw e refl) h
    sort (file b) e = step whole _ f b s (rw e refl) (λ n. h) (k b)
    sort (link q) e = refused_stops _ f io_failed (rw e refl) h

option_any :
    {A B : Type 0} {s : Files} {R : B → Files → Type 0} {E : Files → Type 0} (o : Option A)
    (e : Failure) (f : A → M B)
    → E s
    → ((a : A) → Runs false s (f a) R E)
    → Runs false s (from_option o e >>= f) R E
option_any none e f h k = stop-Runs f e refl h
option_any (some a) e f h k = step_return a f (k a)

module _ (host : Host) (prefix : FilePath) where
  lock_any :
      {s : Files} {E : Files → Type 0}
      → E s
      → Reads false s E
          (update_lock_is_held host prefix host.current_header.metadata_file)
          host.update_lock_held
  unfolding update_lock_is_held
  lock_any h =
      option_any _ _ _ h
        λ stem. read_any _ _ h λ b. step_touch _ h (return-Runs host.update_lock_held (refl, refl))

  unlocked :
      {s : Files}
      → host.update_lock_held ≡ false
      → Runs false s (require_update_lock host prefix) (λ _ t. ⊥) (λ t. t ≡ s)
  unfolding require_update_lock
  unlocked unheld =
      step_reads _ host.update_lock_held (lock_any refl)
        (rw unheld (fail-Runs lock_not_held refl refl))

  -- Where the caller does not hold the coordination lock, the helper applies nothing: it never
  -- succeeds, whatever the system does, and no file changes.
  pub run_apply_helper_unlocked :
      {s : Files}
      → host.update_lock_held ≡ false
      → Runs false s (run_apply_helper host prefix) (λ _ t. ⊥) (λ t. t ≡ s)
  unfolding run_apply_helper
  run_apply_helper_unlocked unheld =
      option_any _ _ _ refl λ u. bind (λ _ t. ⊥) (unlocked unheld) λ _ t bad. absurd bad

module _ (host : Host) (prefix : FilePath) (c : Selection)
    (p : Places prefix host.current_header.metadata_file c)
    (ok : IsSound host prefix host.current_header.metadata_file c p) where
  abbrev metadata_file : Text
  metadata_file = host.current_header.metadata_file

  abbrev pub Resumable : Files → Type 0
  Resumable t =
      Staged host prefix metadata_file c p ok t ⊎ InProgress host prefix metadata_file c p ok t

  module _ {quiet : Bool} {s : Files} where
    lock_held :
        (stem : Text) (b : Bytes) {E : Files → Type 0}
        → E s
        → lock_stem metadata_file ≡ some stem
        → s (join_text prefix (stem ++ codes ".update.lock")) ≡ file b
        → host.update_lock_held ≡ true
        → Reads quiet s E (require_update_lock host prefix) tt
    unfolding require_update_lock update_lock_is_held
    lock_held stem b h named there held =
        step_reads _ true
          (step_from_option _ _ stem _ named
            (step_read_file _ _ b there h (step_touch _ h (return-Runs _ (held, refl)))))
          (return-Runs tt (refl, refl))

    apply_action-Runs :
        Staged host prefix metadata_file c p ok s
        → Runs quiet s
            (apply_action host prefix)
            (λ _ t. IsInstalled host prefix metadata_file c p ok t)
            Resumable
    unfolding apply_action apply_marked report_applied
    apply_action-Runs staged =
        bind _ (mark_pending_ready-Runs host prefix metadata_file c p ok staged)
          λ o t (same, settled, old). rw same (
            bind _
              (weaken
                (apply_pending-Runs host prefix metadata_file c p ok (approved (inl settled) old))
                (λ _ _ k. k) (λ _ k. inr k))
              λ o' t' (same', done_with).
                rw same'
                  (touch-Runs (inr (installed (inl done_with.recorded) done_with.files)) done_with))

    read_ready-Runs :
        host.current_header.runtime_name ≡ c.base.display_name
        → host.current_header.install_name ≡ c.base.install_name
        → Staged host prefix metadata_file c p ok s
        → Runs quiet s
            (read_ready_metadata host prefix)
            (λ _ t. Staged host prefix metadata_file c p ok t)
            Resumable
    unfolding read_ready_metadata
    read_ready-Runs display install (r, old) =
        bind _
          (read-Runs host prefix metadata_file c p ok (pending_meta c PendingExecutablePhase.staged)
            r
            λ t still frame.
              inl (still, Frame-OldInPlace host prefix metadata_file c p ok s t frame old))
          λ m t (same, there, frame).
            let kept = Frame-OldInPlace host prefix metadata_file c p ok s t frame old in
            rw same (
              step_reads _ tt
                (ready-Reads (pending_meta c PendingExecutablePhase.staged)
                  host.current_header.runtime_name host.current_header.install_name metadata_file
                  ok.schema (sym display) (sym install) ok.same_file ok.is_ready)
                (return-Runs _ (inl there, kept)))

  module _ {quiet : Bool} {s : Files} where
    -- The helper, asked to apply a staged update: undisturbed, it succeeds with the new executable
    -- installed and recorded; a run that fails or stops at any call leaves the update staged, or
    -- approved in a state from which it can be finished. The caller holds the coordination lock,
    -- whose file is there, and the header of the runtime has an update configuration and the names
    -- of the prefix.
    pub run_apply_helper-Runs :
        (u : RuntimeUpdateConfig)
        → host.current_header.update ≡ some u
        → (stem : Text) → lock_stem metadata_file ≡ some stem
        → (b : Bytes) → s (join_text prefix (stem ++ codes ".update.lock")) ≡ file b
        → host.update_lock_held ≡ true
        → host.current_header.runtime_name ≡ c.base.display_name
        → host.current_header.install_name ≡ c.base.install_name
        → Staged host prefix metadata_file c p ok s
        → Runs quiet s
            (run_apply_helper host prefix)
            (λ _ t. IsInstalled host prefix metadata_file c p ok t)
            Resumable
    unfolding run_apply_helper
    run_apply_helper-Runs u configured stem named b there held display install staged =
        step_from_option _ _ u _ configured (
          step_reads _ tt (lock_held stem b (inl staged) named there held)
            (bind _ (read_ready-Runs display install staged) λ _ t still. apply_action-Runs still))
