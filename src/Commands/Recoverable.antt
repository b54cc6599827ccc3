-- ===== src/Commands/Recoverable.antt =====
-- An installation by src/commands.rs can be stopped at any call and finished later.
use conda_ship.Prelude.{
  Bool, false, true, Option, none, some, Text, Bytes, ◌≡◌, ◌≢◌, refl, sym, ◌∙◌, ◌⊎◌, inl, inr,
  list_eq, number_eq,
}
use conda_ship.Fs.FilePath.{FilePath}
use conda_ship.Fs.Failure.{delegate_missing}
use conda_ship.Fs.Checked.{accepted}
use conda_ship.Fs.Calls.{Files, file, is_file, file_there, follow, guard}
use conda_ship.Fs.Triple.{
  Runs, bind, weaken, return-Runs, fail-Runs, step_try, step_touch, step_return,
}
use conda_ship.Config.Metadata.{PrefixMetadata}
use conda_ship.Config.Holds.{IsPlain}
use conda_ship.Config.Initial.{
  condarc_path, frozen_path, write_condarc, write_frozen_with_message, metadata_for,
}
use conda_ship.Commands.Delegate.{executable_in_prefix, validate_executable_name, validate_delegate}
use conda_ship.Commands.Disposition.{ManagedPrefixIdentity, Surroundings}
use conda_ship.Commands.States.{IsLaidOut}
use conda_ship.Commands.Bootstrap.{
  Distribution, Installers, embedded_prefix_identity, metadata_identity, put_packages,
  write_configured_policy,
}
use conda_ship.Commands.Prepared.{OnlyChanges, write_file-Runs, IsKept, Keeps, SameOutside}

module _ {quiet : Bool} {s : Files} {E : Files → Type 0} (h : E s) where
  -- The delegate is there: the check passes, or the system fails it.
  pub validate_delegate-Runs :
      (prefix : FilePath) (delegate : Text) (b : Bytes)
      → validate_executable_name delegate ≡ accepted tt
      → s (executable_in_prefix prefix delegate) ≡ file b
      → Runs quiet s (validate_delegate prefix delegate) (λ _ t. t ≡ s) E
  unfolding validate_delegate is_file
  validate_delegate-Runs prefix delegate b named there = rw named (
      step_return tt _ (
        bind (λ c t. (t ≡ s) × ((c ≡ true) ⊎ ((quiet ≡ false) × (c ≡ false))))
          (step_try _ _ true s (rw (there, follow, file_there) refl) h
            (return-Runs true (refl, inl refl))
            (λ loud. return-Runs false (refl, inr (loud, refl))))
          λ c t (same, which). rw same (sort c which)))
    where
      sort :
          (c : Bool)
          → (c ≡ true) ⊎ ((quiet ≡ false) × (c ≡ false))
          → Runs quiet s (guard c delegate_missing) (λ _ t. t ≡ s) E
      sort c (inl e) = rw e (return-Runs tt refl)
      sort c (inr (loud, e)) = rw e (fail-Runs delegate_missing loud h)

module _ (around : Surroundings) (by : Installers) (d : Distribution) (prefix : FilePath) where
  abbrev pub identity : ManagedPrefixIdentity
  identity = embedded_prefix_identity d

  abbrev pub delegate : FilePath
  delegate = executable_in_prefix prefix d.delegate_executable

  abbrev pub recorded_metadata : PrefixMetadata
  recorded_metadata = metadata_for (metadata_identity d) d.channels d.packages

  -- Nothing that the program keeps has changed, nor the delegate.
  abbrev pub Steady : Files → Files → Type 0
  Steady s t = Keeps around prefix identity s t × (t delegate ≡ s delegate)

  -- What is asked of the installers, on files that agree with `s` outside the files that the
  -- program keeps: they leave those files alone, and when they return the delegate is there.
  pub record InstallsOver (s : Files) (bundle : Option FilePath) (offline reinstall : Bool)
      : Type 0 where
    pub put :
        {quiet : Bool} (t : Files)
        → SameOutside around prefix identity s t
        → Runs quiet t
            (put_packages by bundle offline reinstall)
            (λ _ u.
              Keeps around prefix identity t u
              × ((b : Bytes) × (u delegate ≡ file b))
              × IsPlain (u (condarc_path prefix))
              × IsPlain (u (frozen_path prefix)))
            (Keeps around prefix identity t)
    pub compile :
        {quiet : Bool} (t : Files)
        → Runs quiet t by.compile_python_bytecode
            (λ _ u. Steady t u)
            (Keeps around prefix identity t)

  -- The names are apart, and the delegate's is accepted.
  pub record IsSetUp : Type 0 where
    pub laid : IsLaidOut around prefix identity
    pub named : validate_executable_name d.delegate_executable ≡ accepted tt
    pub condarc_apart : ¬ IsKept around prefix identity (condarc_path prefix)
    pub frozen_apart : ¬ IsKept around prefix identity (frozen_path prefix)
    pub delegate_condarc : delegate ≢ condarc_path prefix
    pub delegate_frozen : delegate ≢ frozen_path prefix
    pub frozen_condarc : frozen_path prefix ≢ condarc_path prefix

  module _ (ok : IsSetUp) where
    only-Steady :
        {s t : Files} (p : FilePath)
        → ¬ IsKept around prefix identity p
        → delegate ≢ p
        → OnlyChanges p s t
        → Steady s t
    only-Steady p apart other same = (λ q kept. same q (λ e. apart (rw (sym e) kept)), same _ other)

    Steady-trans : {s t u : Files} → Steady s t → Steady t u → Steady s u
    Steady-trans (a, x) (b, y) = (λ q kept. b q kept ∙ a q kept, y ∙ x)

    module _ {quiet : Bool} {s : Files} where
      condarc-Runs :
          (contents : Bytes)
          → IsPlain (s (condarc_path prefix))
          → IsPlain (s (frozen_path prefix))
          → Runs quiet s
              (write_condarc prefix contents)
              (λ _ t. Steady s t × IsPlain (t (frozen_path prefix)))
              (Steady s)
      unfolding write_condarc
      condarc-Runs contents plain next =
          step_touch _ ((λ q k. refl), refl)
            (weaken
              (write_file-Runs _ contents plain
                λ t same. only-Steady _ ok.condarc_apart ok.delegate_condarc same)
              (λ _ t (_, same). (
                only-Steady _ ok.condarc_apart ok.delegate_condarc same,
                rw (same _ ok.frozen_condarc) next,
              ))
              (λ t h. h))

      frozen-Runs :
          (contents : Bytes)
          → IsPlain (s (frozen_path prefix))
          → Runs quiet s (write_frozen_with_message prefix contents) (λ _ t. Steady s t) (Steady s)
      unfolding write_frozen_with_message
      frozen-Runs contents plain =
          step_touch _ ((λ q k. refl), refl)
            (weaken
              (write_file-Runs _ contents plain
                λ t same. only-Steady _ ok.frozen_apart ok.delegate_frozen same)
              (λ _ t (_, same). only-Steady _ ok.frozen_apart ok.delegate_frozen same) (λ t h. h))

    module _ {quiet : Bool} {s : Files} where
      pub policy-Runs :
          (condarc frozen : Option Bytes)
          → IsPlain (s (condarc_path prefix))
          → IsPlain (s (frozen_path prefix))
          → Runs quiet s
              (write_configured_policy prefix condarc frozen)
              (λ _ t. Steady s t)
              (Steady s)
      unfolding write_configured_policy
      policy-Runs none none a b = step_return tt _ (return-Runs tt ((λ q k. refl), refl))
      policy-Runs none (some frozen) a b = step_return tt _ (frozen-Runs frozen b)
      policy-Runs (some condarc) none a b =
          bind _ (weaken (condarc-Runs condarc a b) (λ _ t h. h) (λ t h. h))
            λ _ t (same, _). return-Runs tt same
      policy-Runs (some condarc) (some frozen) a b =
          bind _ (weaken (condarc-Runs condarc a b) (λ _ t h. h) (λ t h. h)) λ _ t (same, plain).
            weaken (frozen-Runs frozen plain) (λ _ u more. Steady-trans same more)
              (λ u more. Steady-trans same more)
