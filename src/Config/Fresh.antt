-- ===== src/Config/Fresh.antt =====
-- `persist_metadata_for` of src/config.rs where there is no metadata yet.
use conda_ship.Prelude.{
  Bool, false, some, [], ◌∷◌, ◌++◌, take, Bytes, ◌≡◌, ◌≢◌, ◌⊎◌, inl, inr, refl, ◌∙◌, sym,
}
use conda_ship.Fs.FilePath.{FilePath}
use conda_ship.Fs.Failure.{io_failed}
use conda_ship.Fs.Calls.{
  missing, file, Files, ◌>>=◌, ◌>>◌, put, put_self, put_ne, moved, moved_to, moved_from, moved_else,
  exists, there, follow, attempt, rename,
}
use conda_ship.Fs.Triple.{
  Runs, bind, weaken, return-Runs, step_create_new, step_append, step_touch, step_try_rename,
  step_try, step_return, stop-Runs,
}
use conda_ship.Fs.Reads.{Reads, step_reads}
use conda_ship.Config.Metadata.{PrefixMetadata}
use conda_ship.Config.Holds.{
  IsPlain, AreDistinct, Frame, Settled, remove_regular_file_if_present-Runs,
}
use conda_ship.Config.Store.{Json, replace_by_backup, remove_regular_file_if_present, persist_at}

module _ (json : Json) (path tmp bak : FilePath) (d : AreDistinct path tmp bak) (s : Files)
    (meta : PrefixMetadata) where
  -- There is still no metadata, and nothing else has changed.
  abbrev pub Absent : Files → Type 0
  Absent t = (t path ≡ missing) × IsPlain (t tmp) × IsPlain (t bak) × Frame path tmp bak s t

  abbrev pub Written : Files → Type 0
  Written t = Settled json path tmp bak t meta × Frame path tmp bak s t

  abbrev pub Either : Files → Type 0
  Either t = Absent t ⊎ Written t

  put_Absent : {t : Files} (b : Bytes) → Absent t → Absent (put tmp (file b) t)
  put_Absent {t} b (gone, plain, bak_plain, frame) = (
    put_ne _ t tmp path d.path_tmp ∙ gone,
    inr (b, put_self _ t tmp),
    rw (put_ne (file b) t tmp bak (λ e. d.tmp_bak (sym e))) bak_plain,
    λ q x y z. put_ne _ t tmp q y ∙ frame q x y z,
  )

  no_file-Reads :
      {quiet : Bool} {t : Files}
      → Either t
      → t path ≡ missing
      → Reads quiet t Either (exists path) false
  unfolding exists
  no_file-Reads {t = t} h gone =
      step_try _ _ false t (rw (gone, follow, there) refl) h (return-Runs false (refl, refl))
        (λ loud. return-Runs false (refl, refl))

  module _ (t : Files) (text : Bytes) (parsed : json.parse text ≡ some meta) (h : Absent t)
      (held : t tmp ≡ file text) where
    placed : Written (moved tmp path text t)
    placed = (
      record {
        bytes = text;
        at_path = moved_to tmp path text t;
        parsed = parsed;
        tmp_plain = inl (moved_from tmp path text t (λ e. d.path_tmp (sym e)));
        bak_plain =
            rw (moved_else tmp path text t bak (λ e. d.tmp_bak (sym e)) (λ e. d.path_bak (sym e)))
              h.2;
      },
      λ q x y z. moved_else tmp path text t q y x ∙ h.3 q x y z,
    )

    tidied :
        (u : Files)
        → u bak ≡ missing
        → ((q : FilePath) → q ≢ bak → u q ≡ moved tmp path text t q)
        → Written u
    tidied u gone same =
        let (there, frame) = placed in
        (
          record {
            bytes = there.bytes;
            at_path = same path d.path_bak ∙ there.at_path;
            parsed = there.parsed;
            tmp_plain = rw (same tmp d.tmp_bak) there.tmp_plain;
            bak_plain = inl gone;
          },
          λ q x y z. same q z ∙ frame q x y z,
        )

    place :
        {quiet : Bool}
        → Runs quiet t
            (attempt (rename tmp path) >>= λ replaced.
              replace_by_backup path tmp bak replaced >> remove_regular_file_if_present bak)
            (λ _ u. Written u)
            Either
    unfolding replace_by_backup
    place =
        step_try_rename tmp path _ text held (λ e. absurd (cc (e, h.0))) (inl h)
          (step_return tt _ (
            weaken (remove_regular_file_if_present-Runs bak placed.0.bak_plain (inr placed))
              (λ _ u (gone, same). tidied u gone same) (λ u k. k)))
          λ loud.
            bind (λ _ u. ⊥)
              (step_reads _ false (no_file-Reads (inl h) h.0) (stop-Runs _ io_failed loud (inl h)))
              λ _ u bad. absurd bad

  -- A write where no metadata was.
  pub persist_at_fresh :
      {quiet : Bool}
      → s path ≡ missing
      → IsPlain (s tmp)
      → IsPlain (s bak)
      → Runs quiet s (persist_at json path tmp bak meta) (λ _ t. Written t) Either
  unfolding persist_at
  persist_at_fresh gone tmp_plain bak_plain =
      bind _
        (remove_regular_file_if_present-Runs tmp tmp_plain
          (inl (gone, tmp_plain, bak_plain, λ q x y z. refl)))
        λ _ t (free, same).
          let h : Absent t = (
            same path d.path_tmp ∙ gone,
            inl free,
            rw (same bak (λ e. d.tmp_bak (sym e))) bak_plain,
            λ q x y z. same q y,
          ) in
          let once = put_Absent [] h in
          let twice = put_Absent (json.render meta) once in
          let whole = put_Absent (json.render meta ++ b'\n' ∷ []) twice in
          step_create_new tmp _ free (inl h) (
            step_append tmp _ [] (json.render meta) (put_self _ t tmp)
              (λ n. inl (put_Absent (take n (json.render meta)) once))
              (step_append tmp _ (json.render meta) (b'\n' ∷ [])
                (put_self _ (put tmp (file []) t) tmp)
                (λ n. inl (put_Absent (json.render meta ++ take n (b'\n' ∷ [])) twice))
                (step_touch _ (inl whole) (
                  place _ (json.render meta ++ b'\n' ∷ []) (json.parse-render meta) whole
                    (put_self _ (put tmp (file (json.render meta)) (put tmp (file []) t)) tmp)))))
