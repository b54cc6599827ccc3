-- ===== src/ExecutableUpdate/External.antt =====
-- An installation that another program manages stays so: `record_installation` and `apply_pending`
-- of src/executable_update.rs, on metadata that says `external`.
use conda_ship.Prelude.{
  Bool, true, false, not, ◌&&◌, Option, none, some, Text, ◌≡◌, inl, refl, if◌then◌else◌, ◌==◌,
  list_eq, number_eq,
}
use conda_ship.Fs.FilePath.{FilePath, parent, file_name}
use conda_ship.Fs.Failure.{Failure}
use conda_ship.Fs.Calls.{Files, M, ◌>>=◌, guard, from_option}
use conda_ship.Fs.Triple.{
  Runs, bind, weaken, return-Runs, fail-Runs, stop-Runs, step_return, step_touch, touch-Runs,
}
use conda_ship.Fs.Reads.{step_from_option}
use conda_ship.RuntimeData.Header.{UpdateOwnership, ownership_eq, ownership_beq, direct, external}
use conda_ship.Config.Metadata.{
  ExecutableUpdateMetadata, PrefixMetadata, validate_metadata_ready_for,
  validate_metadata_identity_for,
}
use conda_ship.Config.Store.{
  metadata_path_for, temporary_metadata_path_for, backup_metadata_path_for, read_metadata_for,
}
use conda_ship.Config.Holds.{AreDistinct, Holds, Frame}
use conda_ship.Config.Read.{read_at-Runs}
use conda_ship.ExecutableUpdate.Types.{Host}
use conda_ship.ExecutableUpdate.Stamp.{acquire, lock_path, validate_current_metadata}
use conda_ship.ExecutableUpdate.Installation.{record_installation, validate_instruction}

-- Tests of which nothing is known.
module _ {B : Type 0} {s : Files} {R : B → Files → Type 0} {E : Files → Type 0} (h : E s) where
  guard_any :
      (f : Unit {0} → M B) (b : Bool) (e : Failure)
      → Runs false s (f tt) R E
      → Runs false s (guard b e >>= f) R E
  guard_any f true e k = step_return tt f k
  guard_any f false e k = stop-Runs f e refl h

  guard_fails :
      (f : Unit {0} → M B) (b : Bool) (e : Failure) → b ≡ false → Runs false s (guard b e >>= f) R E
  guard_fails f b e stop = rw stop (stop-Runs f e refl h)

  from_option_any :
      {A : Type 0} (f : A → M B) (o : Option A) (e : Failure)
      → ((a : A) → Runs false s (f a) R E)
      → Runs false s (from_option o e >>= f) R E
  from_option_any f none e k = stop-Runs f e refl h
  from_option_any f (some a) e k = step_return a f (k a)

module _ {s : Files} {E : Files → Type 0} (h : E s) where
  guard_last : (b : Bool) (e : Failure) → Runs false s (guard b e) (λ _ t. t ≡ s) E
  guard_last true e = return-Runs tt refl
  guard_last false e = fail-Runs e refl h

  acquire_any : (prefix : FilePath) → Runs false s (acquire prefix) (λ _ t. t ≡ s) E
  unfolding acquire lock_path
  acquire_any prefix =
      bind (λ _ t. t ≡ s)
        (from_option_any h _ (parent prefix) _
          λ d. from_option_any h _ (file_name prefix) _ λ n. return-Runs _ refl)
        λ _ t same. rw same (step_touch _ h (step_touch _ h (touch-Runs h refl)))

  ready_any :
      (meta : PrefixMetadata) (display install metadata_file : Text)
      → Runs false s
          (validate_metadata_ready_for meta display install metadata_file)
          (λ _ t. t ≡ s)
          E
  unfolding validate_metadata_ready_for validate_metadata_identity_for
  ready_any meta display install metadata_file =
      bind (λ _ t. t ≡ s)
        (guard_any h _ _ _ (guard_any h _ _ _ (guard_any h _ _ _ (guard_last _ _))))
        λ _ t same. rw same (guard_last _ _)

  validate_any :
      (host : Host) (meta : PrefixMetadata) (metadata_file : Text)
      → Runs false s (validate_current_metadata host meta metadata_file) (λ _ t. t ≡ s) E
  unfolding validate_current_metadata
  validate_any host meta metadata_file = sort host.current_stamped
    where
      sort :
          (b : Bool)
          → Runs false s
              (if b
                then validate_metadata_ready_for meta host.current_header.runtime_name
                    host.current_header.install_name metadata_file
                else validate_metadata_ready_for meta meta.display_name meta.install_name
                    metadata_file)
              (λ _ t. t ≡ s)
              E
      sort true = ready_any meta _ _ metadata_file
      sort false = ready_any meta _ _ metadata_file

blocked : (o : UpdateOwnership) → o ≡ external → not (o == external && direct == direct) ≡ false
unfolding ownership_beq
blocked o e = rw e refl

module _ (host : Host) (prefix : FilePath) (metadata_file : Text)
    (distinct : AreDistinct
      (metadata_path_for prefix metadata_file)
      (temporary_metadata_path_for prefix metadata_file)
      (backup_metadata_path_for prefix metadata_file)) where
  abbrev pub HoldsHere : PrefixMetadata → Files → Type 0
  HoldsHere meta t =
      Holds host.json (metadata_path_for prefix metadata_file)
        (temporary_metadata_path_for prefix metadata_file)
        (backup_metadata_path_for prefix metadata_file) t meta

  -- Nothing changes but the place of the metadata, which stays the same.
  abbrev pub Untouched : PrefixMetadata → Files → Files → Type 0
  Untouched meta s t =
      HoldsHere meta t
      × Frame (metadata_path_for prefix metadata_file)
          (temporary_metadata_path_for prefix metadata_file)
          (backup_metadata_path_for prefix metadata_file) s t

  module _ {s : Files} (meta : PrefixMetadata) (u : ExecutableUpdateMetadata) where
    read_any :
        HoldsHere meta s
        → Runs false s
            (read_metadata_for host.json prefix metadata_file)
            (λ r t. (r ≡ meta) × Untouched meta s t)
            (Untouched meta s)
    unfolding read_metadata_for
    read_any held =
        weaken (read_at-Runs host.json _ _ _ distinct s meta held)
          (λ r t (same, there, frame). (same, (inl there, frame))) (λ t h. h)

    no_instruction :
        {E : Files → Type 0}
        → E s
        → (instruction : Option Text)
        → Runs false s
            (validate_instruction host prefix metadata_file direct instruction)
            (λ _ t. t ≡ s)
            E
    unfolding validate_instruction
    no_instruction h none = return-Runs tt refl
    no_instruction h (some i) = fail-Runs _ refl h

    -- Whatever the system does, an installation recorded as external is never recorded as direct:
    -- the attempt by `record_installation` fails, the metadata still says what it said, and no
    -- other file changes.
    pub external_is_kept :
        (installation : Text) (instruction : Option Text) (executable : FilePath)
        → meta.update ≡ some u
        → u.ownership ≡ external
        → HoldsHere meta s
        → Runs false s
            (record_installation host prefix metadata_file executable direct installation
              instruction)
            (λ o t. ⊥)
            (Untouched meta s)
    unfolding record_installation
    external_is_kept installation instruction executable recorded owned held =
        let here : Untouched meta s s = (held, λ q a b c. refl) in
        guard_any here _ _ _ (
          bind (λ _ t. t ≡ s) (no_instruction here instruction)
            λ _ t same. rw same (
              bind (λ _ t. t ≡ s) (acquire_any here prefix)
                λ _ t same. rw same (
                  bind _ (read_any held) λ m t (same, kept). rw same (
                    bind (λ _ v. v ≡ t) (validate_any kept host meta metadata_file)
                      λ _ v still. rw still (
                        step_from_option _ meta.update u _ recorded (
                          from_option_any kept _ host.current_header.update _ λ config.
                            guard_any kept _ _ _ (
                              guard_any kept _ _ _
                                (guard_fails kept _ _ _ (blocked u.ownership owned)))))))))
