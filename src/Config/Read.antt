-- ===== src/Config/Read.antt =====
-- `read_metadata_for` of src/config.rs finishes what a replacement has left undone.
use conda_ship.Prelude.{some, none, Bytes, ◌≡◌, ◌≢◌, inl, inr, refl, sym, ◌∙◌, Bool}
use conda_ship.Fs.FilePath.{FilePath}
use conda_ship.Fs.Failure.{io_failed}
use conda_ship.Fs.Calls.{missing, file, Files, moved, moved_to, moved_from, moved_else}
use conda_ship.Fs.Triple.{
  Runs, bind, return-Runs, fail-Runs, step_symlink_metadata, step_read_file, step_try_rename,
}
use conda_ship.Fs.Reads.{Reads, step_reads}
use conda_ship.Config.Metadata.{PrefixMetadata}
use conda_ship.Config.Holds.{
  AreDistinct, Frame, Settled, Interrupted, Holds, remove_regular_file_if_present-Runs,
}
use conda_ship.Config.Store.{
  Json, read_metadata_from_path, read_regular_metadata_if_present, restore_metadata_path, read_at,
}

module _ (json : Json) {quiet : Bool} {s : Files} {E : Files → Type 0} (p : FilePath)
    (h : E s) where
  pub read-file :
      {m : PrefixMetadata} (b : Bytes)
      → s p ≡ file b
      → json.parse b ≡ some m
      → Runs quiet s (read_metadata_from_path json p) (λ r t. (r ≡ m) × (t ≡ s)) E
  unfolding read_metadata_from_path
  read-file {m} b e parsed = step_read_file p _ b e h (rw parsed (return-Runs m (refl, refl)))

  read-present :
      {m : PrefixMetadata} (b : Bytes)
      → s p ≡ file b
      → json.parse b ≡ some m
      → Runs quiet s (read_regular_metadata_if_present json p) (λ r t. (r ≡ some m) × (t ≡ s)) E
  unfolding read_regular_metadata_if_present
  read-present b e parsed = step_symlink_metadata p _ h (
      rw e (
        bind _ (read-file b e parsed)
          (λ m t (same, still). rw (same, still) (return-Runs _ (refl, refl)))))

  read-missing :
      s p ≡ missing
      → Runs quiet s (read_regular_metadata_if_present json p) (λ r t. (r ≡ none) × (t ≡ s)) E
  unfolding read_regular_metadata_if_present
  read-missing e = step_symlink_metadata p _ h (rw e (return-Runs none (refl, refl)))

module _ (json : Json) (path tmp bak : FilePath) where
  -- Metadata in its file is read, and nothing changes.
  pub read_at-Reads :
      {quiet : Bool} {s : Files} {E : Files → Type 0} {m : PrefixMetadata}
      → Settled json path tmp bak s m
      → E s
      → Reads quiet s E (read_at json path tmp bak) m
  unfolding read_at
  read_at-Reads {m = m} k h =
      step_reads _ (some m) (read-present json path h k.bytes k.at_path k.parsed)
        (return-Runs m (refl, refl))

module _ (json : Json) (path tmp bak : FilePath) (d : AreDistinct path tmp bak) (s : Files)
    (m : PrefixMetadata) where
  -- The state that a reader leaves.
  abbrev pub Recovered : PrefixMetadata → Files → Type 0
  Recovered r t = (r ≡ m) × Settled json path tmp bak t m × Frame path tmp bak s t

  abbrev pub StillHolds : Files → Type 0
  StillHolds t = Holds json path tmp bak t m × Frame path tmp bak s t

  module _ (left : Interrupted json path tmp bak s m) where
    here : StillHolds s
    here = (inr left, λ q a b c. refl)

    restored : Settled json path tmp bak (moved tmp path left.bytes s) m
    restored = record {
      bytes = left.bytes;
      at_path = moved_to _ _ left.bytes s;
      parsed = left.parsed;
      tmp_plain = inl (moved_from _ _ left.bytes s (λ e. d.path_tmp (sym e)));
      bak_plain =
          rw
            (moved_else tmp path left.bytes s bak (λ e. d.tmp_bak (sym e))
              (λ e. d.path_bak (sym e)))
            left.bak_plain;
    }

    restored-Frame : Frame path tmp bak s (moved tmp path left.bytes s)
    restored-Frame q a b c = moved_else tmp path left.bytes s q b a

    restore-Runs :
        {quiet : Bool} → Runs quiet s (restore_metadata_path json tmp path m) Recovered StillHolds
    unfolding restore_metadata_path
    restore-Runs =
        step_try_rename tmp path _ left.bytes left.at_tmp (λ e. cc (e, left.gone)) here
          (return-Runs m (refl, restored, restored-Frame))
          λ loud.
            bind _ (read-missing json path here left.gone)
              λ r t (absent, same). rw (absent, same) (fail-Runs io_failed loud here)

  tidied :
      (t u : Files)
      → Settled json path tmp bak t m
      → Frame path tmp bak s t
      → u bak ≡ missing
      → ((q : FilePath) → q ≢ bak → u q ≡ t q)
      → Settled json path tmp bak u m × Frame path tmp bak s u
  tidied t u there frame gone same = (
    record {
      bytes = there.bytes;
      at_path = same path d.path_bak ∙ there.at_path;
      parsed = there.parsed;
      tmp_plain = rw (same tmp d.tmp_bak) there.tmp_plain;
      bak_plain = inl gone;
    },
    λ q a b c. same q c ∙ frame q a b c,
  )

  pub read_at-Runs :
      {quiet : Bool}
      → Holds json path tmp bak s m
      → Runs quiet s (read_at json path tmp bak) Recovered StillHolds
  unfolding read_at
  read_at-Runs (inl there) =
      bind _
        (read-present json path (inl there, λ q a b c. refl) there.bytes there.at_path there.parsed)
        λ r t (found, same). rw (found, same) (return-Runs m (refl, there, λ q a b c. refl))
  read_at-Runs (inr left) =
      bind _ (read-missing json path (here left) left.gone) λ r t (absent, same).
        rw (absent, same)
          (bind _ (read-present json tmp (here left) left.bytes left.at_tmp left.parsed)
            λ r' t' (found, same').
              rw (found, same')
                (bind Recovered (restore-Runs left) λ m' u (eq, there, frame).
                  bind _
                    (remove_regular_file_if_present-Runs bak there.bak_plain (inl there, frame))
                    λ _ v (gone, kept).
                      let (a, b) = tidied u v there frame gone kept in return-Runs m' (eq, a, b)))
