-- ===== src/Commands/Classified.antt =====
-- `prefix_disposition_for` of src/commands.rs tells the states of a prefix apart.
use conda_ship.Prelude.{Bool, true, false, sym, ◌∙◌, ◌⊎◌, inl, inr, list_eq, number_eq}
use conda_ship.Fs.FilePath.{FilePath}
use conda_ship.Fs.Calls.{Files}
use conda_ship.Fs.Triple.{Runs, bind, weaken}
use conda_ship.Fs.Reads.{Reads}
use conda_ship.Config.Metadata.{PrefixMetadata}
use conda_ship.BootstrapState.Marker.{path, temporary_path, remove}
use conda_ship.BootstrapState.Kept.{Elsewhere, remove_state_file-Runs}
use conda_ship.Commands.Disposition.{
  ManagedPrefixIdentity, PrefixDisposition, ready, bootstrap, Surroundings,
}
use conda_ship.Commands.States.{
  IsLaidOut, move-Healthy, Complete, PrefixState, vacant, interrupted, committed, managed, Shows,
}
use conda_ship.Commands.Executable.{executable_in_prefix-ne, join-above}

module _ (around : Surroundings) (prefix : FilePath) (identity : ManagedPrefixIdentity)
    (laid : IsLaidOut around prefix identity) where
  -- The answer for each state, and the state afterwards.
  abbrev pub answer : PrefixState around prefix identity → PrefixDisposition
  answer vacant = bootstrap false
  answer interrupted = bootstrap true
  answer (committed m) = ready
  answer (managed m) = ready

  abbrev pub afterwards : PrefixState around prefix identity → PrefixState around prefix identity
  afterwards (committed m) = managed m
  afterwards vacant = vacant
  afterwards interrupted = interrupted
  afterwards (managed m) = managed m

  -- What is complete stays so when nothing but the marker's files changes.
  carry-Complete :
      {s t : Files} {m : PrefixMetadata}
      → Elsewhere around.state_json (path prefix) (temporary_path prefix) laid.marker_tmp s t
      → Complete around prefix identity s m
      → Complete around prefix identity t m
  unfolding path temporary_path
  carry-Complete {s} {t} {m} same (stored, healthy, there) = (
    record {
      bytes = stored.bytes;
      at_path =
          same _ (λ e. laid.marker_metadata (sym e)) (λ e. laid.tmp_metadata (sym e))
          ∙ stored.at_path;
      parsed = stored.parsed;
      tmp_plain =
          rw (same _ (λ e. laid.marker_temporary (sym e)) (λ e. laid.tmp_temporary (sym e)))
            stored.tmp_plain;
      bak_plain =
          rw (same _ (λ e. laid.marker_backup (sym e)) (λ e. laid.tmp_backup (sym e)))
            stored.bak_plain;
    },
    move-Healthy around prefix identity healthy (
        same _ (executable_in_prefix-ne prefix healthy.delegate _ healthy.named)
          (executable_in_prefix-ne prefix healthy.delegate _ healthy.named)),
    same prefix (join-above prefix _) (join-above prefix _) ∙ there,
  )

  -- Removing the marker, where the metadata is complete.
  pub remove-Runs :
      {quiet : Bool} {s : Files} {m : PrefixMetadata}
      → Shows around prefix identity (committed m) s
      → Runs quiet s
          (remove prefix)
          (λ _ t. Shows around prefix identity (managed m) t)
          (λ t.
            Shows around prefix identity (committed m) t
            ⊎ Shows around prefix identity (managed m) t)
  unfolding remove
  remove-Runs {quiet} {s} {m} ((marked, tmp_gone), complete) =
      bind _
        (remove_state_file-Runs _ (inr (marked.bytes, marked.at_path))
          (inl ((marked, tmp_gone), complete)))
        λ _ t (gone, same).
          let tmp_still = same _ (λ e. laid.marker_tmp (sym e)) ∙ tmp_gone in
          let left : Shows around prefix identity (managed m) t =
            ((gone, tmp_still), carry-Complete (λ q a b. same q a) complete) in
          weaken (remove_state_file-Runs _ (inl tmp_still) (inr left))
            (λ _ u (absent, still). (
              (still _ laid.marker_tmp ∙ gone, absent),
              carry-Complete (λ q a b. still q b) left.1,
            ))
            (λ u h. h)
