-- ===== src/Config/Persist.antt =====
-- `persist_metadata_for` of src/config.rs replaces the metadata as one step, whatever call fails or
-- is the last.
use conda_ship.Prelude.{
  Bool, false, some, [], ◌∷◌, ◌++◌, Bytes, list_eq, number_eq, ◌≡◌, ◌≢◌, inl, inr, refl, ◌∙◌, sym,
}
use conda_ship.Fs.FilePath.{FilePath, path_eq}
use conda_ship.Fs.Failure.{io_failed}
use conda_ship.Fs.Calls.{
  Node, missing, file, Files, ◌>>=◌, put, put_self, put_ne, moved, moved_to, moved_from, moved_else,
  attempt, rename, ◌>>◌,
}
use conda_ship.Fs.Triple.{
  Runs, bind, weaken, return-Runs, fail-Runs, step_create_new, step_append, step_touch,
  step_try_rename, step_rename, step_exists, step_return, stop-Runs,
}
use conda_ship.Config.Metadata.{PrefixMetadata}
use conda_ship.Config.Holds.{
  IsPlain, AreDistinct, Frame, Settled, Between, remove_regular_file_if_present-Runs,
}
use conda_ship.Config.Store.{
  Json, roll_back, replace_by_backup, remove_regular_file_if_present, persist_at,
}

module _ (json : Json) (path tmp bak : FilePath) (d : AreDistinct path tmp bak) (s : Files)
    (old new : PrefixMetadata) (was : Settled json path tmp bak s old) where
  -- Only the temporary file has changed.
  record Draft (t : Files) : Type 0 where
    same_path : t path ≡ s path
    bak_plain : IsPlain (t bak)
    tmp_plain : IsPlain (t tmp)
    frame : Frame path tmp bak s t

  Draft-put : {t : Files} (n : Node) → IsPlain n → Draft t → Draft (put tmp n t)
  Draft-put {t} n plain h = record {
    same_path = put_ne n t tmp path d.path_tmp ∙ h.same_path;
    bak_plain = rw (put_ne n t tmp bak (λ e. d.tmp_bak (sym e))) h.bak_plain;
    tmp_plain = rw (put_self n t tmp) plain;
    frame = λ q a b c. put_ne n t tmp q b ∙ h.frame q a b c;
  }

  Draft-Between : (t : Files) → Draft t → Between json path tmp bak s old new t
  Draft-Between t h = (
    inl (
        inl (record {
          bytes = was.bytes;
          at_path = h.same_path ∙ was.at_path;
          parsed = was.parsed;
          tmp_plain = h.tmp_plain;
          bak_plain = h.bak_plain;
        })),
    h.frame,
  )

  -- A draft that is written whole.
  record Written (t : Files) : Type 0 where
    draft : Draft t
    full : Bytes
    at_tmp : t tmp ≡ file full
    parsed : json.parse full ≡ some new

  module _ (t : Files) (w : Written t) where
    -- After the rename the new metadata is in place.
    placed :
        Settled json path tmp bak (moved tmp path w.full t) new
        × Frame path tmp bak s (moved tmp path w.full t)
    placed = (
      record {
        bytes = w.full;
        at_path = moved_to _ _ w.full t;
        parsed = w.parsed;
        tmp_plain = inl (moved_from _ _ w.full t (λ e. d.path_tmp (sym e)));
        bak_plain =
            rw (moved_else _ _ w.full t bak (λ e. d.tmp_bak (sym e)) (λ e. d.path_bak (sym e)))
              w.draft.bak_plain;
      },
      λ q a b c. moved_else _ _ w.full t q b a ∙ w.draft.frame q a b c,
    )

  -- The metadata stands under the name of its backup.
  record Aside (t : Files) : Type 0 where
    full : Bytes
    no_path : t path ≡ missing
    at_tmp : t tmp ≡ file full
    at_bak : t bak ≡ file was.bytes
    parsed : json.parse full ≡ some new
    frame : Frame path tmp bak s t

  Aside-Between : (t : Files) → Aside t → Between json path tmp bak s old new t
  Aside-Between t a = (
    inr (
        inr (record {
          bytes = a.full;
          gone = a.no_path;
          at_tmp = a.at_tmp;
          parsed = a.parsed;
          bak_plain = inr (was.bytes, a.at_bak);
        })),
    a.frame,
  )

  set-Aside : (t : Files) → Written t → Aside (moved path bak was.bytes t)
  set-Aside t w = record {
    full = w.full;
    no_path = moved_from _ _ was.bytes t d.path_bak;
    at_tmp = moved_else _ _ was.bytes t tmp (λ e. d.path_tmp (sym e)) d.tmp_bak ∙ w.at_tmp;
    at_bak = moved_to _ _ was.bytes t;
    parsed = w.parsed;
    frame = λ q a b c. moved_else _ _ was.bytes t q a c ∙ w.draft.frame q a b c;
  }

  module _ (t : Files) (a : Aside t) where
    Aside-placed :
        Settled json path tmp bak (moved tmp path a.full t) new
        × Frame path tmp bak s (moved tmp path a.full t)
    Aside-placed = (
      record {
        bytes = a.full;
        at_path = moved_to _ _ a.full t;
        parsed = a.parsed;
        tmp_plain = inl (moved_from _ _ a.full t (λ e. d.path_tmp (sym e)));
        bak_plain = inr (
          was.bytes,
          moved_else _ _ a.full t bak (λ e. d.tmp_bak (sym e)) (λ e. d.path_bak (sym e)) ∙ a.at_bak,
        );
      },
      λ q x y z. moved_else _ _ a.full t q y x ∙ a.frame q x y z,
    )

    Aside-restored : Between json path tmp bak s old new (moved bak path was.bytes t)
    Aside-restored = (
      inl (
          inl (record {
            bytes = was.bytes;
            at_path = moved_to _ _ was.bytes t;
            parsed = was.parsed;
            tmp_plain = inr (
              a.full,
              moved_else _ _ was.bytes t tmp d.tmp_bak (λ e. d.path_tmp (sym e)) ∙ a.at_tmp,
            );
            bak_plain = inl (moved_from _ _ was.bytes t (λ e. d.path_bak (sym e)));
          })),
      λ q x y z. moved_else _ _ was.bytes t q z x ∙ a.frame q x y z,
    )

  Written-Between : (t : Files) → Written t → Between json path tmp bak s old new t
  Written-Between t w = Draft-Between t w.draft

  -- What the state after a replacement is.
  abbrev Finished : Unit {0} → Files → Type 0
  Finished _ t = Settled json path tmp bak t new × Frame path tmp bak s t

  Aside-runs :
      {quiet : Bool} (t : Files) (a : Aside t)
      → quiet ≡ false
      → Runs quiet t
          (attempt (rename tmp path) >>= λ replaced. roll_back path bak replaced)
          Finished
          (Between json path tmp bak s old new)
  unfolding roll_back
  Aside-runs t a loud =
      step_try_rename tmp path _ a.full a.at_tmp (λ e. cc (e, a.no_path)) (Aside-Between t a)
        (return-Runs tt (Aside-placed t a))
        λ _.
          step_try_rename bak path _ was.bytes a.at_bak (λ e. cc (e, a.no_path)) (Aside-Between t a)
            (fail-Runs io_failed loud (Aside-restored t a))
            λ _. fail-Runs io_failed loud (Aside-Between t a)

  Aside-start :
      {quiet : Bool} (t : Files) (w : Written t)
      → quiet ≡ false
      → t bak ≡ missing
      → Runs quiet t
          (rename path bak
            >> (attempt (rename tmp path) >>= λ replaced. roll_back path bak replaced))
          Finished
          (Between json path tmp bak s old new)
  Aside-start t w loud absent =
      step_rename path bak _ was.bytes (w.draft.same_path ∙ was.at_path) (λ e. cc (e, absent))
        (Written-Between t w) (Aside-runs _ (set-Aside t w) loud)

  -- The detour by the backup, which is taken only where a rename has failed.
  detour :
      {quiet : Bool} (t : Files) (w : Written t)
      → quiet ≡ false
      → Runs quiet t
          (replace_by_backup path tmp bak (inl io_failed))
          Finished
          (Between json path tmp bak s old new)
  unfolding replace_by_backup
  detour t w loud =
      step_exists path _ was.bytes (w.draft.same_path ∙ was.at_path) (Written-Between t w)
        (step_return tt _ (
          bind _ (remove_regular_file_if_present-Runs bak w.draft.bak_plain (Written-Between t w))
            λ _ u (gone, same). Aside-start u (bak_gone u gone same) loud gone))
        (λ _. stop-Runs _ io_failed loud (Written-Between t w))
    where
      bak_gone : (u : Files) → u bak ≡ missing → ((q : FilePath) → q ≢ bak → u q ≡ t q) → Written u
      bak_gone u gone same = record {
        draft = record {
          same_path = same path d.path_bak ∙ w.draft.same_path;
          bak_plain = inl gone;
          tmp_plain = rw (same tmp d.tmp_bak) w.draft.tmp_plain;
          frame = λ q a b c. same q c ∙ w.draft.frame q a b c;
        };
        full = w.full;
        at_tmp = same tmp d.tmp_bak ∙ w.at_tmp;
        parsed = w.parsed;
      }

  -- The last call of `persist_metadata_for`.
  tidy :
      {quiet : Bool} (t : Files)
      → Finished tt t
      → Runs quiet t
          (remove_regular_file_if_present bak)
          Finished
          (Between json path tmp bak s old new)
  tidy t (there, frame) =
      weaken (remove_regular_file_if_present-Runs bak there.bak_plain (inr (inl there), frame))
        (λ _ u (gone, same). (
          record {
            bytes = there.bytes;
            at_path = same path d.path_bak ∙ there.at_path;
            parsed = there.parsed;
            tmp_plain = rw (same tmp d.tmp_bak) there.tmp_plain;
            bak_plain = inl gone;
          },
          λ q a b c. same q c ∙ frame q a b c,
        ))
        (λ u h. h)

  start-Draft : Draft s
  start-Draft = record {
    same_path = refl;
    bak_plain = was.bak_plain;
    tmp_plain = was.tmp_plain;
    frame = λ q a b c. refl;
  }

  written : (u : Files) → Draft u → u tmp ≡ file (json.render new ++ b'\n' ∷ []) → Written u
  written u k e = record { draft = k; full = _; at_tmp = e; parsed = json.parse-render new }

  finish :
      {quiet : Bool} (t : Files)
      → Written t
      → Runs quiet t
          (attempt (rename tmp path) >>= λ replaced.
            replace_by_backup path tmp bak replaced >> remove_regular_file_if_present bak)
          Finished
          (Between json path tmp bak s old new)
  unfolding replace_by_backup
  finish t w =
      step_try_rename tmp path _ w.full w.at_tmp (λ e. cc (e, w.draft.same_path ∙ was.at_path))
        (Written-Between t w) (step_return tt _ (tidy _ (placed t w)))
        (λ loud. bind Finished (detour t w loud) (λ _ u h. tidy u h))

  abbrev empty_put : Files → Files
  empty_put t = put tmp (file []) t

  abbrev text_put : Files → Files
  text_put t = put tmp (file (json.render new)) (empty_put t)

  drafted : {u : Files} → Draft u → (b : Bytes) → Draft (put tmp (file b) u)
  drafted k b = Draft-put (file b) (inr (b, refl)) k

  -- Whatever fails in `persist_metadata_for`, and wherever the process stops, the next reader finds
  -- the old metadata or the new, and nothing else has changed. If it returns, the new metadata is
  -- in its file; it returns if no call is disturbed. The old metadata is in its file at the start,
  -- and the three paths differ.
  pub persist_at-Runs :
      {quiet : Bool}
      → Runs quiet s
          (persist_at json path tmp bak new)
          Finished
          (Between json path tmp bak s old new)
  unfolding persist_at
  persist_at-Runs =
      bind _ (remove_regular_file_if_present-Runs tmp was.tmp_plain (Draft-Between s start-Draft))
        λ _ t (gone, same).
          let h = emptied t gone same in
          step_create_new tmp _ gone (Draft-Between t h) (
            step_append tmp _ [] (json.render new) (put_self _ t tmp)
              (λ n. Draft-Between _ (drafted (drafted h _) _))
              (step_append tmp _ (json.render new) (b'\n' ∷ []) (put_self _ (empty_put t) tmp)
                (λ n. Draft-Between _ (drafted (drafted (drafted h _) _) _))
                (step_touch _ (Draft-Between _ (drafted (drafted (drafted h _) _) _)) (
                  finish _ (
                    written _ (drafted (drafted (drafted h _) _) _)
                      (put_self _ (text_put t) tmp))))))
    where
      emptied : (t : Files) → t tmp ≡ missing → ((q : FilePath) → q ≢ tmp → t q ≡ s q) → Draft t
      emptied t gone same = record {
        same_path = same path d.path_tmp;
        bak_plain = rw (same bak (λ e. d.tmp_bak (sym e))) was.bak_plain;
        tmp_plain = inl gone;
        frame = λ q a b c. same q b;
      }
