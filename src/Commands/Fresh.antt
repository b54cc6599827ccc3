-- ===== src/Commands/Fresh.antt =====
-- The first call of an installation by src/commands.rs: the prefix is made and marked.
use conda_ship.Prelude.{
  ℕ, ◌<◌, arith, length, Bool, ◌≡◌, refl, sym, ◌∙◌, ◌⊎◌, inl, inr, list_eq, number_eq,
}
use conda_ship.Fs.FilePath.{FilePath}
use conda_ship.Fs.Calls.{Files, missing, directory}
use conda_ship.Fs.Directories.{
  CanBeMade, OnlyMakes, partly_made, partly_made-OnlyMakes, below_stays, made_there,
  create_dir_all-Runs,
}
use conda_ship.Fs.Triple.{Runs, bind, weaken}
use conda_ship.Config.Holds.{IsPlain}
use conda_ship.Config.Metadata.{installing}
use conda_ship.BootstrapState.Marker.{
  path, temporary_path, write_installing_for, write_state_at, current,
}
use conda_ship.BootstrapState.Kept.{Begun, write_state_at-Runs}
use conda_ship.Commands.Disposition.{Surroundings, bootstrap_identity}
use conda_ship.Commands.States.{
  Shows, interrupted, committed, managed, metadata_path, temporary, backup, laid-IsBelow,
}
use conda_ship.Commands.Bootstrap.{Distribution, Installers}
use conda_ship.Commands.Executable.{join-above}
use conda_ship.Commands.Prepared.{at_marker, at_marker_tmp, SameOutside, Prepared}
use conda_ship.Commands.Recoverable.{identity, recorded_metadata, IsSetUp}

marker_below : (prefix : FilePath) → length prefix.parts < length (temporary_path prefix).parts
unfolding temporary_path
marker_below prefix = omega arith

module _ (around : Surroundings) (by : Installers) (d : Distribution) (prefix : FilePath)
    (ok : IsSetUp around by d prefix) where
  -- A directory without metadata, and with or without the marker.
  record IsOpen (s : Files) : Type 0 where
    marker_plain : IsPlain (s (path prefix))
    marker_tmp_plain : IsPlain (s (temporary_path prefix))
    gone : s (metadata_path around prefix (identity around by d prefix)) ≡ missing
    tmp_plain : IsPlain (s (temporary around prefix (identity around by d prefix)))
    bak_plain : IsPlain (s (backup around prefix (identity around by d prefix)))
    there : s prefix ≡ directory

  -- A prefix that is there or can be made, without metadata, and with or without the marker.
  pub record IsFresh (s : Files) : Type 0 where
    pub marker_plain : IsPlain (s (path prefix))
    pub marker_tmp_plain : IsPlain (s (temporary_path prefix))
    pub gone : s (metadata_path around prefix (identity around by d prefix)) ≡ missing
    pub tmp_plain : IsPlain (s (temporary around prefix (identity around by d prefix)))
    pub bak_plain : IsPlain (s (backup around prefix (identity around by d prefix)))
    pub there : CanBeMade prefix s

  -- The files once the prefix has been made.
  abbrev pub made_ready : Files → Files
  made_ready s = partly_made 0 prefix s

  -- Where an installation over `s` can stop.
  abbrev pub Stopped : Files → Files → Type 0
  Stopped s t =
      ((u : Files) × (OnlyMakes prefix s u
          × Begun around.state_json (path prefix) (temporary_path prefix) ok.laid.marker_tmp u t))
      ⊎ (Shows around prefix (identity around by d prefix) interrupted t
          ⊎ (Shows around prefix (identity around by d prefix)
                (committed (recorded_metadata around by d prefix)) t
              ⊎ Shows around prefix (identity around by d prefix)
                  (managed (recorded_metadata around by d prefix)) t))

  -- The files of the program stay, where only directories that lead to the prefix are made.
  opened : {s : Files} → IsFresh s → IsOpen (made_ready s)
  unfolding path temporary_path
  opened {s} h =
      let only = partly_made-OnlyMakes 0 prefix s in
      let stays =
        λ (q : FilePath) (below : length prefix.parts < length q.parts). below_stays q only below in
      record {
        marker_plain = rw (stays (path prefix) (omega arith)) h.marker_plain;
        marker_tmp_plain = rw (stays (temporary_path prefix) (omega arith)) h.marker_tmp_plain;
        gone =
            stays (metadata_path around prefix (identity around by d prefix))
              (laid-IsBelow around prefix (identity around by d prefix) ok.laid).metadata_below
            ∙ h.gone;
        tmp_plain =
            rw
              (stays (temporary around prefix (identity around by d prefix))
                (laid-IsBelow around prefix (identity around by d prefix) ok.laid).temporary_below)
              h.tmp_plain;
        bak_plain =
            rw
              (stays (backup around prefix (identity around by d prefix))
                (laid-IsBelow around prefix (identity around by d prefix) ok.laid).backup_below)
              h.bak_plain;
        there = made_there prefix s h.there;
      }

  writing-Runs :
      {quiet : Bool} (s : Files) {u : Files}
      → OnlyMakes prefix s u
      → IsOpen u
      → Runs quiet u
          (write_state_at around.state_json
            (path prefix)
            (temporary_path prefix)
            (current installing (bootstrap_identity (identity around by d prefix))))
          (λ _ t.
            Prepared around prefix (identity around by d prefix) t
            × SameOutside around prefix (identity around by d prefix) u t)
          (Stopped s)
  unfolding path temporary_path
  writing-Runs s {u} only h =
      weaken
        (write_state_at-Runs around.state_json _ _ ok.laid.marker_tmp _ h.marker_plain
          h.marker_tmp_plain (λ t begun. inl (u, (only, begun)))
          (λ t marks same. inr (
            inl (
              marks,
              same _ (λ e. ok.laid.marker_metadata (sym e)) (λ e. ok.laid.tmp_metadata (sym e))
                  ∙ h.gone,
              same _ (join-above prefix _) (join-above prefix _) ∙ h.there,
            ))))
        (λ _ t (marked, free, same). (
          (
            (marked, free),
            same _ (λ e. ok.laid.marker_metadata (sym e)) (λ e. ok.laid.tmp_metadata (sym e))
                ∙ h.gone,
            rw (same _ (λ e. ok.laid.marker_temporary (sym e)) (λ e. ok.laid.tmp_temporary (sym e)))
                h.tmp_plain,
            rw (same _ (λ e. ok.laid.marker_backup (sym e)) (λ e. ok.laid.tmp_backup (sym e)))
                h.bak_plain,
            same _ (join-above prefix _) (join-above prefix _) ∙ h.there,
          ),
          λ q other. same q (λ e. other (rw e at_marker)) (λ e. other (rw e at_marker_tmp)),
        ))
        (λ t k. k)

  pub marking-Runs :
      {quiet : Bool} {s : Files}
      → IsFresh s
      → Runs quiet s
          (write_installing_for around.state_json prefix
            (bootstrap_identity (identity around by d prefix)))
          (λ _ t.
            Prepared around prefix (identity around by d prefix) t
            × SameOutside around prefix (identity around by d prefix) (made_ready s) t)
          (Stopped s)
  unfolding write_installing_for
  marking-Runs {s = s} h =
      bind (λ _ t. t ≡ made_ready s)
        (create_dir_all-Runs prefix h.there
          (λ k. inl (
            partly_made k prefix s,
            (partly_made-OnlyMakes k prefix s, (refl, making_keeps k h, λ q a b. refl)),
          ))
          refl)
        λ _ t same. rw same (writing-Runs s (partly_made-OnlyMakes 0 prefix s) (opened h))
    where
      making_keeps :
          {s : Files} (k : ℕ) → IsFresh s → IsPlain (partly_made k prefix s (temporary_path prefix))
      making_keeps {s} k h =
          rw
            (below_stays (temporary_path prefix) (partly_made-OnlyMakes k prefix s)
              (marker_below prefix))
            h.marker_tmp_plain
