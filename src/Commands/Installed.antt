-- ===== src/Commands/Installed.antt =====
-- An installation by src/commands.rs, from its first call to its last.
use conda_ship.Prelude.{Bool, Option, Bytes, ◌≡◌, refl, ◌∙◌, inl, inr, list_eq, number_eq, ==-refl}
use conda_ship.Fs.FilePath.{FilePath, with_extension}
use conda_ship.Fs.Failure.{wrong_metadata_file}
use conda_ship.Fs.Calls.{Files, ◌>>◌, directory, file}
use conda_ship.Fs.Triple.{Runs, bind, weaken}
use conda_ship.Fs.Reads.{step_guard}
use conda_ship.Config.Holds.{Frame}
use conda_ship.Config.Fresh.{persist_at_fresh}
use conda_ship.Config.Initial.{write_metadata_for_identity, metadata_for}
use conda_ship.Config.Store.{
  persist_metadata_for, metadata_path_for, temporary_metadata_path_for, backup_metadata_path_for,
}
use conda_ship.BootstrapState.Marker.{remove}
use conda_ship.Commands.Disposition.{Surroundings}
use conda_ship.Commands.States.{
  IsHealthy, Marked, Stored, Shows, committed, managed, metadata_path, temporary, backup,
  laid-IsBelow, metadata_level, temporary_level, backup_level,
}
use conda_ship.Commands.Bootstrap.{
  Distribution, Installers, embedded_prefix_identity, metadata_identity, install_over,
}
use conda_ship.Commands.Classified.{remove-Runs}
use conda_ship.Commands.Executable.{executable_in_prefix-level, above-ne}
use conda_ship.Commands.Prepared.{
  Keeps, Prepared, carry-Prepared, Prepared-interrupted, invalidate-Runs,
}
use conda_ship.Commands.Recoverable.{
  identity, delegate, recorded_metadata, InstallsOver, IsSetUp, policy-Runs, validate_delegate-Runs,
}
use conda_ship.Commands.Fresh.{IsFresh, made_ready, Stopped, marking-Runs}

module _ (around : Surroundings) (by : Installers) (d : Distribution) (prefix : FilePath)
    (ok : IsSetUp around by d prefix) where
  healthy :
      {u : Files} (b : Bytes)
      → u (delegate around by d prefix) ≡ file b
      → IsHealthy around prefix
          (identity around by d prefix)
          u
          (recorded_metadata around by d prefix)
  unfolding metadata_for metadata_identity embedded_prefix_identity
  healthy b at = record {
    schema = refl;
    display = refl;
    install = refl;
    file_name = refl;
    complete = refl;
    delegate = d.delegate_executable;
    recorded = refl;
    expected = inr refl;
    named = ok.named;
    bytes = b;
    there = at;
  }

  module _ {t : Files} (p : Prepared around prefix (identity around by d prefix) t) where
    -- The marker under changes to the metadata files.
    Marked-still :
        {u : Files}
        → Frame
            (metadata_path around prefix (identity around by d prefix))
            (temporary around prefix (identity around by d prefix))
            (backup around prefix (identity around by d prefix))
            t
            u
        → Marked around prefix (identity around by d prefix) u × (u prefix ≡ directory)
    unfolding metadata_path_for temporary_metadata_path_for backup_metadata_path_for with_extension
    Marked-still {u} same =
        let ((marked, free), _, _, _, there) = p in
        let free_still =
          same _ ok.laid.tmp_metadata ok.laid.tmp_temporary ok.laid.tmp_backup ∙ free in
        (
          (
            record {
              bytes = marked.bytes;
              at_path =
                  same _ ok.laid.marker_metadata ok.laid.marker_temporary ok.laid.marker_backup
                  ∙ marked.at_path;
              parsed = marked.parsed;
              tmp_plain = inl free_still;
            },
            free_still,
          ),
          same prefix
                (above-ne prefix _
                  (laid-IsBelow around prefix (identity around by d prefix) ok.laid).metadata_below)
                (above-ne prefix _
                  (laid-IsBelow around prefix (identity around by d prefix)
                    ok.laid).temporary_below)
                (above-ne prefix _
                  (laid-IsBelow around prefix (identity around by d prefix) ok.laid).backup_below)
              ∙ there,
        )

    -- The metadata is written and the marker removed.
    commit-Runs :
        {quiet : Bool} (s : Files) (b : Bytes)
        → t (delegate around by d prefix) ≡ file b
        → Runs quiet t
            (write_metadata_for_identity around.json prefix
                (metadata_identity d)
                d.channels
                d.packages
              >> remove prefix)
            (λ _ u.
              Shows around prefix
                (identity around by d prefix)
                (managed (recorded_metadata around by d prefix))
                u)
            (Stopped around by d prefix ok s)
    unfolding write_metadata_for_identity persist_metadata_for metadata_for metadata_identity
        embedded_prefix_identity metadata_path_for temporary_metadata_path_for
        backup_metadata_path_for with_extension
    commit-Runs s b at =
        let (_, gone, tmp_plain, bak_plain, there) = p in
        bind
          (λ _ u.
            Shows around prefix (identity around by d prefix)
              (committed (recorded_metadata around by d prefix)) u)
          (step_guard _ _ wrong_metadata_file (==-refl d.metadata_file) (
            weaken
              (persist_at_fresh around.json _ _ _ ok.laid.distinct t
                (recorded_metadata around by d prefix) gone tmp_plain bak_plain)
              (λ _ u (stored, frame). complete u stored frame)
              (λ u k. elim k [
                | inl (absent, _, _, frame) ↦
                    let ((marked, _), dir) = Marked-still frame in
                    inr (inl (inl marked, absent, dir))
                | inr (stored, frame) ↦ inr (inr (inl (complete u stored frame)))
              ])))
          λ _ u shown.
            weaken (remove-Runs around prefix (identity around by d prefix) ok.laid shown)
              (λ _ v k. k) (λ v k. inr (inr k))
      where
        complete :
            (u : Files)
            → Stored around prefix
                (identity around by d prefix)
                u
                (recorded_metadata around by d prefix)
            → Frame
                (metadata_path around prefix (identity around by d prefix))
                (temporary around prefix (identity around by d prefix))
                (backup around prefix (identity around by d prefix))
                t
                u
            → Shows around prefix
                (identity around by d prefix)
                (committed (recorded_metadata around by d prefix))
                u
        complete u stored frame =
            let (marked, dir) = Marked-still frame in
            (
              marked,
              (
                stored,
                healthy b (
                    frame _
                      (executable_in_prefix-level prefix d.delegate_executable _ ok.named
                        (metadata_level around prefix (identity around by d prefix) ok.laid))
                      (executable_in_prefix-level prefix d.delegate_executable _ ok.named
                        (temporary_level around prefix (identity around by d prefix) ok.laid))
                      (executable_in_prefix-level prefix d.delegate_executable _ ok.named
                        (backup_level around prefix (identity around by d prefix) ok.laid))
                    ∙ at),
                dir,
              ),
            )

  -- An installation over a prefix without metadata, which is there or can be made, if no call is
  -- disturbed, ends with a managed prefix: no marker, the metadata of this runtime, and its
  -- delegate. If any call fails or is the last, the prefix is as it was but for directories that
  -- lead to it and the marker's temporary file, or is marked as interrupted with no metadata, or is
  -- complete with or without the marker: a prefix that is filled in part is never taken for ready.
  -- The installers leave the files of the program alone and, when they return, the delegate is
  -- there; the files of the program have different names, and the metadata file is an entry of the
  -- prefix.
  pub install_over-Runs :
      {quiet : Bool} {s : Files} (bundle : Option FilePath) (offline reinstall : Bool)
      → IsFresh around by d prefix ok s
      → InstallsOver around by d prefix
          (made_ready around by d prefix ok s)
          bundle
          offline
          reinstall
      → Runs quiet s
          (install_over around by d prefix bundle offline reinstall)
          (λ _ t.
            Shows around prefix
              (identity around by d prefix)
              (managed (recorded_metadata around by d prefix))
              t)
          (Stopped around by d prefix ok s)
  unfolding install_over embedded_prefix_identity metadata_identity
  install_over-Runs {s = s} bundle offline reinstall fresh installs =
      bind _ (marking-Runs around by d prefix ok fresh) λ _ t (p, outside).
        bind _
          (invalidate-Runs around prefix (identity around by d prefix) ok.laid (λ u q. filling q) p)
          λ _ u (q, outside_too).
            bind _
              (weaken (installs.put u (λ r other. outside_too r other ∙ outside r other))
                (λ _ v k. k) (λ v keeps. filling (carry keeps q)))
              λ _ v (keeps, (b, at), condarc, frozen).
                let held = carry keeps q in
                bind _
                  (weaken (policy-Runs around by d prefix ok d.condarc d.frozen condarc frozen)
                    (λ _ w k. k) (λ w k. filling (carry k.0 held)))
                  λ _ w (steady, same).
                    let still = carry steady held in
                    bind _
                      (weaken (installs.compile w) (λ _ x k. k) (λ x k. filling (carry k still)))
                      λ _ x (steady_too, same_too).
                        let last = carry steady_too still in
                        let there = same_too ∙ (same ∙ at) in
                        bind _
                          (validate_delegate-Runs (filling last) prefix d.delegate_executable b
                            ok.named there)
                          λ _ y unmoved. rw unmoved (commit-Runs last s b there)
    where
      filling :
          {t : Files}
          → Prepared around prefix (identity around by d prefix) t
          → Stopped around by d prefix ok s t
      filling p = inr (inl (Prepared-interrupted around prefix (identity around by d prefix) p))

      carry :
          {t u : Files}
          → Keeps around prefix (identity around by d prefix) t u
          → Prepared around prefix (identity around by d prefix) t
          → Prepared around prefix (identity around by d prefix) u
      carry = carry-Prepared around prefix (identity around by d prefix)
