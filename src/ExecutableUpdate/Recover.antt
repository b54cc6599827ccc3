-- ===== src/ExecutableUpdate/Recover.antt =====
-- The entry points that carry an approved update to its end: `apply_pending` and
-- `recover_pending` of src/executable_update.rs, from every state that an interrupted run leaves.
use conda_ship.Prelude.{
  Bool, true, false, Text, ◌≡◌, ◌⊎◌, inl, inr, refl, ◌∙◌, ==-refl, list_eq, number_eq,
  if◌then◌else◌, sym, Bool-cases,
}
use conda_ship.Fs.FilePath.{FilePath}
use conda_ship.Fs.Calls.{Files}
use conda_ship.Fs.Triple.{Runs, bind, weaken, return-Runs}
use conda_ship.Fs.Reads.{Reads, step_reads, step_guard}
use conda_ship.Config.Store.{read_metadata_for}
use conda_ship.Config.Read.{read_at-Runs}
use conda_ship.Config.Metadata.{
  PrefixMetadata, BootstrapPhase, validate_metadata_ready_for, validate_metadata_identity_for,
  prefix_metadata_schema_version,
}
use conda_ship.ExecutableUpdate.Types.{ExecutableUpdateOutcome, Host}
use conda_ship.ExecutableUpdate.Stamp.{validate_current_metadata}
use conda_ship.ExecutableUpdate.Facts.{acquire-Reads}
use conda_ship.ExecutableUpdate.Setting.{
  Selection, Places, IsSound, Records, RecordsSettled, InProgress, approved, begun, moved_over,
  installed, IsInstalled,
}
use conda_ship.ExecutableUpdate.Steps.{InFrame, Frame-OldInPlace, Frame-NewInPlace}
use conda_ship.ExecutableUpdate.Apply.{apply_approved-Runs, apply_begun-Runs, apply_moved-Runs}
use conda_ship.ExecutableUpdate.Commands.{recover_pending_with}

module _ {quiet : Bool} {s : Files} {E : Files → Type 0} (meta : PrefixMetadata) where
  -- The checks on the metadata, which change nothing.
  pub ready-Reads :
      (display install metadata_file : Text)
      → meta.schema_version ≡ prefix_metadata_schema_version
      → meta.display_name ≡ display
      → meta.install_name ≡ install
      → meta.metadata_file ≡ metadata_file
      → meta.bootstrap_state ≡ BootstrapPhase.ready
      → Reads quiet s E (validate_metadata_ready_for meta display install metadata_file) tt
  unfolding validate_metadata_ready_for validate_metadata_identity_for
  ready-Reads display install metadata_file schema a b d phase =
      step_reads _ tt
        (step_guard _ _ _ (rw schema refl) (
          step_guard _ _ _ (rw a (==-refl display)) (
            step_guard _ _ _ (rw b (==-refl install))
              (rw (d, ==-refl metadata_file) (return-Runs tt (refl, refl))))))
        (rw phase (return-Runs tt (refl, refl)))

module _ (host : Host) (prefix : FilePath) (metadata_file : Text) (c : Selection)
    (p : Places prefix metadata_file c) (ok : IsSound host prefix metadata_file c p) where
  module _ {quiet : Bool} {s : Files} {E : Files → Type 0} where
    pub validate_current_metadata-Reads :
        (meta : PrefixMetadata)
        → meta.schema_version ≡ c.base.schema_version
        → meta.display_name ≡ c.base.display_name
        → meta.install_name ≡ c.base.install_name
        → meta.metadata_file ≡ c.base.metadata_file
        → meta.bootstrap_state ≡ c.base.bootstrap_state
        → Reads quiet s E (validate_current_metadata host meta metadata_file) tt
    unfolding validate_current_metadata
    validate_current_metadata-Reads meta v a b f r =
        sort ok.current (Bool-cases host.current_stamped)
      where
        unstamped :
            host.current_stamped ≡ false
            → Reads quiet s E
                (if host.current_stamped
                  then validate_metadata_ready_for meta host.current_header.runtime_name
                      host.current_header.install_name metadata_file
                  else validate_metadata_ready_for meta meta.display_name meta.install_name
                      metadata_file)
                tt
        unstamped e = rw e (
            ready-Reads meta _ _ metadata_file (v ∙ ok.schema) refl refl (f ∙ ok.same_file)
              (r ∙ ok.is_ready))

        sort :
            (host.current_stamped ≡ false)
              ⊎ ((host.current_header.runtime_name ≡ c.base.display_name)
                  × (host.current_header.install_name ≡ c.base.install_name))
            → (host.current_stamped ≡ true) ⊎ (host.current_stamped ≡ false)
            → Reads quiet s E
                (if host.current_stamped
                  then validate_metadata_ready_for meta host.current_header.runtime_name
                      host.current_header.install_name metadata_file
                  else validate_metadata_ready_for meta meta.display_name meta.install_name
                      metadata_file)
                tt
        sort (inl e) _ = unstamped e
        sort (inr _) (inr e) = unstamped e
        sort (inr (x, y)) (inl e) = rw e (
            ready-Reads meta _ _ metadata_file (v ∙ ok.schema) (a ∙ sym x) (b ∙ sym y)
              (f ∙ ok.same_file) (r ∙ ok.is_ready))

    -- A reader, on files that hold `meta`.
    pub read-Runs :
        (meta : PrefixMetadata)
        → Records host prefix metadata_file c p ok s meta
        → ((t : Files)
            → Records host prefix metadata_file c p ok t meta
            → InFrame host prefix metadata_file c p ok s t
            → E t)
        → Runs quiet s
            (read_metadata_for host.json prefix metadata_file)
            (λ r t.
              (r ≡ meta)
              × RecordsSettled host prefix metadata_file c p ok t meta
              × InFrame host prefix metadata_file c p ok s t)
            E
    unfolding read_metadata_for
    read-Runs meta held k =
        weaken (read_at-Runs host.json _ _ _ p.distinct s meta held) (λ r t h. h)
          (λ t (still, frame). k t still frame)

  -- What a run reports: an update that was in place already is no news.
  abbrev pub outcome_from :
      {s : Files} → InProgress host prefix metadata_file c p ok s → ExecutableUpdateOutcome
  outcome_from (approved _ _) = ExecutableUpdateOutcome.applied
  outcome_from (begun _ _) = ExecutableUpdateOutcome.applied
  outcome_from (moved_over _ _) = ExecutableUpdateOutcome.applied
  outcome_from (installed _ _) = ExecutableUpdateOutcome.unneeded

  abbrev pub Finished :
      {s : Files}
      → InProgress host prefix metadata_file c p ok s
      → ExecutableUpdateOutcome
      → Files
      → Type 0
  Finished h o t = (o ≡ outcome_from h) × IsInstalled host prefix metadata_file c p ok t

  module _ {quiet : Bool} {s : Files} where
    -- The recovery at start-up, and the one that discards staged updates, finish an approved update
    -- from each of its states: an undisturbed run succeeds with the new executable installed and
    -- recorded, and a run that fails or stops leaves a state from which the update can be finished.
    pub recover_pending_with-Runs :
        (discard_staged : Bool) (h : InProgress host prefix metadata_file c p ok s)
        → Runs quiet s
            (recover_pending_with host prefix metadata_file discard_staged)
            (Finished h)
            (InProgress host prefix metadata_file c p ok)
    unfolding recover_pending_with
    recover_pending_with-Runs d (approved r f) =
        step_reads _ tt (acquire-Reads (approved r f) prefix _ _ p.prefix_above p.prefix_named) (
          bind _
            (read-Runs _ r λ t still frame.
              approved still (Frame-OldInPlace host prefix metadata_file c p ok s t frame f))
            λ m t (same, there, frame). rw same (
              step_reads _ tt (validate_current_metadata-Reads _ refl refl refl refl refl) (
                apply_approved-Runs host prefix metadata_file c p ok there
                  (Frame-OldInPlace host prefix metadata_file c p ok s t frame f))))
    recover_pending_with-Runs d (begun r f) =
        step_reads _ tt (acquire-Reads (begun r f) prefix _ _ p.prefix_above p.prefix_named) (
          bind _
            (read-Runs _ r λ t still frame.
              begun still (Frame-OldInPlace host prefix metadata_file c p ok s t frame f))
            λ m t (same, there, frame). rw same (
              step_reads _ tt (validate_current_metadata-Reads _ refl refl refl refl refl) (
                apply_begun-Runs host prefix metadata_file c p ok there
                  (Frame-OldInPlace host prefix metadata_file c p ok s t frame f))))
    recover_pending_with-Runs d (moved_over r f) =
        step_reads _ tt (acquire-Reads (moved_over r f) prefix _ _ p.prefix_above p.prefix_named) (
          bind _
            (read-Runs _ r λ t still frame.
              moved_over still (Frame-NewInPlace host prefix metadata_file c p ok s t frame f))
            λ m t (same, there, frame). rw same (
              step_reads _ tt (validate_current_metadata-Reads _ refl refl refl refl refl) (
                apply_moved-Runs host prefix metadata_file c p ok there
                  (Frame-NewInPlace host prefix metadata_file c p ok s t frame f))))
    recover_pending_with-Runs d (installed r f) =
        step_reads _ tt (acquire-Reads (installed r f) prefix _ _ p.prefix_above p.prefix_named) (
          bind _
            (read-Runs _ r λ t still frame.
              installed still (Frame-NewInPlace host prefix metadata_file c p ok s t frame f))
            λ m t (same, there, frame). rw same (
              step_reads _ tt (validate_current_metadata-Reads _ refl refl refl refl refl) (
                return-Runs ExecutableUpdateOutcome.unneeded (
                  refl,
                  record {
                    recorded = there;
                    files = Frame-NewInPlace host prefix metadata_file c p ok s t frame f;
                  },
                ))))
