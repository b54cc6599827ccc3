-- ===== src/Commands/Checks.antt =====
-- What the checks of src/commands.rs and src/exec.rs answer on a prefix that is in order.
use conda_ship.Prelude.{
  Bool, true, false, none, some, Text, Bytes, ◌==◌, list_eq, number_eq, ◌≡◌, refl, ◌∙◌, ap, ◌⊎◌,
  inl, inr, ==-refl,
}
use conda_ship.Fs.FilePath.{FilePath}
use conda_ship.Fs.Failure.{wrong_schema, wrong_display_name, wrong_install_name}
use conda_ship.Fs.Checked.{accepted}
use conda_ship.Fs.Calls.{
  Files, Node, missing, directory, file, whole, follow, file_there, directory_there, is_file,
  is_dir, exists, there,
}
use conda_ship.Fs.Triple.{
  return-Runs, step, step_try, step_symlink_metadata, step_return, syscall-Runs,
}
use conda_ship.Fs.Reads.{Reads, step_reads, step_guard, attempt-Reads}
use conda_ship.Config.Metadata.{
  PrefixMetadata, validate_metadata_identity_for, validate_metadata_ready_for,
}
use conda_ship.Config.Store.{read_metadata_for}
use conda_ship.Config.Read.{read_at-Reads}
use conda_ship.Commands.Delegate.{executable_in_prefix, validate_executable_name, validate_delegate}
use conda_ship.Commands.Disposition.{
  ManagedPrefixIdentity, Surroundings, symlink_metadata_is_dir, validate_prefix_path, is_empty_dir,
  read_managed_metadata_for, validate_recorded_delegate, validate_ready_prefix_for, is_healthy,
}
use conda_ship.Commands.States.{IsHealthy, Stored}

-- Of the files at the end of a run that is not disturbed, in place of those after a failure.
abbrev pub Anything : Files → Type 0
Anything s = Unit {0}

module _ {s : Files} where
  pub prefix_path-Reads :
      (prefix : FilePath) (n : Node)
      → s prefix ≡ n
      → (n ≡ missing) ⊎ (n ≡ directory)
      → Reads true s Anything (validate_prefix_path prefix) tt
  unfolding validate_prefix_path symlink_metadata_is_dir
  prefix_path-Reads prefix n e (inl f) =
      step whole _ _ none s (rw (e ∙ f) refl) (λ n. tt) (return-Runs tt (refl, refl))
  prefix_path-Reads prefix n e (inr f) =
      step whole _ _ (some true) s (rw (e ∙ f) refl) (λ n. tt) (return-Runs tt (refl, refl))

  is_file-Reads : (p : FilePath) (b : Bytes) → s p ≡ file b → Reads true s Anything (is_file p) true
  unfolding is_file
  is_file-Reads p b e =
      step_try _ _ true s (rw (e, follow, file_there) refl) tt (return-Runs true (refl, refl))
        (λ loud. absurd (cc loud))

  pub exists-Reads : (p : FilePath) → s p ≡ directory → Reads true s Anything (exists p) true
  unfolding exists
  exists-Reads p e =
      step_try _ _ true s (rw (e, follow, there) refl) tt (return-Runs true (refl, refl))
        (λ loud. absurd (cc loud))

  pub exists-missing : (p : FilePath) → s p ≡ missing → Reads true s Anything (exists p) false
  unfolding exists
  exists-missing p e =
      step_try _ _ false s (rw (e, follow, there) refl) tt (return-Runs false (refl, refl))
        (λ loud. absurd (cc loud))

  is_dir-Reads : (p : FilePath) → s p ≡ directory → Reads true s Anything (is_dir p) true
  unfolding is_dir
  is_dir-Reads p e =
      step_try _ _ true s (rw (e, follow, directory_there) refl) tt (return-Runs true (refl, refl))
        (λ loud. absurd (cc loud))

  pub validate_delegate-Reads :
      (prefix : FilePath) (delegate : Text) (b : Bytes)
      → validate_executable_name delegate ≡ accepted tt
      → s (executable_in_prefix prefix delegate) ≡ file b
      → Reads true s Anything (validate_delegate prefix delegate) tt
  unfolding validate_delegate
  validate_delegate-Reads prefix delegate b named there =
      rw named (
        step_return tt _
          (step_reads _ true (is_file-Reads _ b there) (return-Runs tt (refl, refl))))

module _ (around : Surroundings) {s : Files} where
  pub is_empty_dir-Reads :
      (prefix : FilePath) (b : Bool)
      → s prefix ≡ directory
      → around.directories.is_empty s prefix ≡ b
      → Reads true s Anything (is_empty_dir around prefix) b
  unfolding is_empty_dir
  is_empty_dir-Reads prefix b there e =
      step_reads _ true (is_dir-Reads prefix there)
        (syscall-Runs whole _ b s (rw e refl) (λ n. tt) (refl, refl))

module _ (around : Surroundings) (prefix : FilePath) (identity : ManagedPrefixIdentity) {s : Files}
    {m : PrefixMetadata} (k : IsHealthy around prefix identity s m) where
  pub identity-Reads :
      Reads true s Anything
        (validate_metadata_identity_for m identity.display_name identity.install_name
          identity.metadata_file)
        tt
  unfolding validate_metadata_identity_for
  identity-Reads = step_guard _ _ wrong_schema (ap (λ x. x == 1) k.schema) (
      step_guard _ _ wrong_display_name
        (ap (λ x. x == identity.display_name) k.display ∙ ==-refl identity.display_name)
        (step_guard _ _ wrong_install_name
          (ap (λ x. x == identity.install_name) k.install ∙ ==-refl identity.install_name)
          (rw (ap (λ x. x == identity.metadata_file) k.file_name ∙ ==-refl identity.metadata_file)
            (return-Runs tt (refl, refl)))))

  ready-Reads :
      Reads true s Anything
        (validate_metadata_ready_for m identity.display_name identity.install_name
          identity.metadata_file)
        tt
  unfolding validate_metadata_ready_for
  ready-Reads = step_reads _ tt identity-Reads (rw k.complete (return-Runs tt (refl, refl)))

  pub managed_metadata-Reads :
      Stored around prefix identity s m
      → Reads true s Anything (read_managed_metadata_for around prefix identity) m
  unfolding read_managed_metadata_for read_metadata_for
  managed_metadata-Reads stored = step_symlink_metadata _ _ tt (
      rw stored.at_path (
        step_return tt _ (
          step_reads _ m (read_at-Reads around.json _ _ _ stored tt)
            (step_reads _ tt ready-Reads (return-Runs m (refl, refl))))))

  pub recorded_delegate-Reads :
      Reads true s Anything
        (validate_recorded_delegate around prefix m identity.expected_delegate)
        tt
  unfolding validate_recorded_delegate
  recorded_delegate-Reads = elim k.expected [
    | inl none_expected ↦ rw (none_expected, k.recorded) (step_return k.delegate _ valid)
    | inr same ↦ rw (same, k.recorded) (rw (==-refl k.delegate) (step_return k.delegate _ valid))
  ]
    where
      valid : Reads true s Anything (validate_delegate prefix k.delegate) tt
      valid = validate_delegate-Reads prefix k.delegate k.bytes k.named k.there

  pub ready_prefix-Reads :
      Stored around prefix identity s m
      → Reads true s Anything (validate_ready_prefix_for around prefix identity) tt
  unfolding validate_ready_prefix_for
  ready_prefix-Reads stored = step_reads _ m (managed_metadata-Reads stored) recorded_delegate-Reads

  pub is_healthy-Reads :
      (b : Bool)
      → Reads true s Anything (is_healthy around b prefix m identity.expected_delegate) true
  unfolding is_healthy
  is_healthy-Reads false = return-Runs true (refl, refl)
  is_healthy-Reads true =
      step_reads _ _ (attempt-Reads tt recorded_delegate-Reads) (return-Runs true (refl, refl))
