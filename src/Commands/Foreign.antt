-- ===== src/Commands/Foreign.antt =====
-- A prefix that another runtime has marked: src/commands.rs leaves it alone.
use conda_ship.Prelude.{Bool, true, false, none, some, ◌≡◌, ◌≢◌, refl, list_eq, number_eq, ==-eq}
use conda_ship.Fs.FilePath.{FilePath}
use conda_ship.Fs.Failure.{Failure, not_directory}
use conda_ship.Fs.Calls.{Files, Node, M, ◌>>=◌, guard, missing, directory, file, link, whole}
use conda_ship.Fs.Triple.{Runs, bind, return-Runs, fail-Runs, stop-Runs, step, step_return}
use conda_ship.Fs.Reads.{step_reads}
use conda_ship.Config.Metadata.{BootstrapPhase, installing}
use conda_ship.BootstrapState.Marker.{
  BootstrapState, BootstrapIdentity, current, path, temporary_path, read, validate_identity_for,
  is_installing,
}
use conda_ship.BootstrapState.Kept.{Marks, read_state_at-Reads}
use conda_ship.Commands.Disposition.{
  ManagedPrefixIdentity, bootstrap_identity, Surroundings, symlink_metadata_is_dir,
  validate_prefix_path, prefix_disposition_for,
}

module _ {s : Files} {E : Files → Type 0} (h : E s) where
  -- A guard, with what it has tested.
  guard_tested :
      {B : Type 0} {R : B → Files → Type 0} (f : Unit {0} → M B) (b : Bool) (e : Failure)
      → (b ≡ true → Runs false s (f tt) R E)
      → Runs false s (guard b e >>= f) R E
  guard_tested f true e k = step_return tt f (k refl)
  guard_tested f false e k = stop-Runs f e refl h

  guard_refuses :
      {R : Unit {0} → Files → Type 0} (b : Bool) (e : Failure)
      → (b ≡ true → ⊥)
      → Runs false s (guard b e) R E
  guard_refuses true e k = absurd (k refl)
  guard_refuses false e k = fail-Runs e refl h

  prefix_path_any :
      (prefix : FilePath) → Runs false s (validate_prefix_path prefix) (λ _ t. t ≡ s) E
  unfolding validate_prefix_path symlink_metadata_is_dir
  prefix_path_any prefix = sort (s prefix) refl
    where
      sort : (n : Node) → s prefix ≡ n → Runs false s (validate_prefix_path prefix) (λ _ t. t ≡ s) E
      sort missing e = step whole _ _ none s (rw e refl) (λ n. h) (return-Runs tt refl)
      sort directory e = step whole _ _ (some true) s (rw e refl) (λ n. h) (return-Runs tt refl)
      sort (file b) e =
          step whole _ _ (some false) s (rw e refl) (λ n. h) (fail-Runs not_directory refl h)
      sort (link p) e =
          step whole _ _ (some false) s (rw e refl) (λ n. h) (fail-Runs not_directory refl h)

is_installing_eq : (p : BootstrapPhase) → is_installing p ≡ true → p ≡ installing
is_installing_eq installing h = refl
is_installing_eq BootstrapPhase.ready h = absurd (cc h)

-- The marker of another runtime, of another phase, or of another schema is not accepted.
foreign_refused :
    {s : Files} {E : Files → Type 0} (m : BootstrapState) (identity : BootstrapIdentity)
    → E s
    → m ≢ current installing identity
    → Runs false s (validate_identity_for m identity) (λ _ t. ⊥) E
unfolding validate_identity_for current
foreign_refused m identity h other = guard_tested h _ _ _ λ schema. guard_tested h _ _ _ λ display.
    guard_tested h _ _ _ λ install. guard_tested h _ _ _ λ name. guard_refuses h _ _ λ phase.
      other (λ i. record {
        schema_version = ==-eq m.schema_version 1 schema i;
        state = is_installing_eq m.state phase i;
        display_name = ==-eq m.display_name identity.display_name display i;
        install_name = ==-eq m.install_name identity.install_name install i;
        metadata_file = ==-eq m.metadata_file identity.metadata_file name i;
      })

module _ (around : Surroundings) (prefix : FilePath) (identity : ManagedPrefixIdentity) where
  -- A prefix whose marker is not exactly that of this runtime is refused whatever the system does,
  -- and no file changes.
  pub foreign_marker_refused :
      {s : Files} (m : BootstrapState) (require_healthy_delegate : Bool)
      → Marks around.state_json (path prefix) (temporary_path prefix) s m
      → m ≢ current installing (bootstrap_identity identity)
      → Runs false s
          (prefix_disposition_for around prefix identity require_healthy_delegate)
          (λ r t. ⊥)
          (λ t. t ≡ s)
  unfolding prefix_disposition_for read
  foreign_marker_refused {s} m b marks other =
      bind (λ _ t. t ≡ s) (prefix_path_any refl prefix)
        λ _ t same. rw same (
          step_reads _ (some m) (read_state_at-Reads around.state_json _ _ m marks refl) (
            bind (λ _ t. ⊥) (foreign_refused m (bootstrap_identity identity) refl other)
              λ _ u bad. absurd bad))
