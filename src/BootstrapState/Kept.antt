-- ===== src/BootstrapState/Kept.antt =====
-- What a marker survives, and what is read back.
use conda_ship.Prelude.{
  ℕ, Bool, true, false, none, some, [], take, ◌∷◌, ◌++◌, Bytes, ◌≡◌, ◌≢◌, ◌⊎◌, inl, inr, refl, sym,
  ◌∙◌, ==-refl, list_eq, number_eq,
}
use conda_ship.Fs.FilePath.{FilePath}
use conda_ship.Fs.Failure.{io_failed, unparsable, wrong_schema}
use conda_ship.Fs.Calls.{
  Files, missing, file, fine, fails, crashes, crash, err, append, symlink_metadata, syscall, ◌>>=◌,
  ◌>>◌, from_option, create, make_or_truncate, rename, move, whole, put, put_self, put_ne, moved,
  moved_to, moved_from, moved_else,
}
use conda_ship.Fs.Triple.{
  Runs, bind, weaken, return-Runs, step, step_symlink_metadata, step_read_file, step_append,
  step_touch, remove_file-Runs, stop-Runs, syscall-Runs, start,
}
use conda_ship.Fs.Reads.{Reads, step_reads, step_from_option, step_guard}
use conda_ship.Config.Holds.{IsPlain}
use conda_ship.Config.Metadata.{installing}
use conda_ship.BootstrapState.Marker.{
  BootstrapState, BootstrapIdentity, StateJson, current, remove_state_file, read_state_file,
  read_state_at, write_state_at, validate_identity_for,
}

module _ {quiet : Bool} {s : Files} {E : Files → Type 0} (p : FilePath) where
  pub remove_state_file-Runs :
      IsPlain (s p)
      → E s
      → Runs quiet s
          (remove_state_file p)
          (λ _ t. (t p ≡ missing) × ((q : FilePath) → q ≢ p → t q ≡ s q))
          E
  unfolding remove_state_file
  remove_state_file-Runs (inl absent) h =
      step_symlink_metadata p _ h (rw absent (return-Runs tt (absent, λ q _. refl)))
  remove_state_file-Runs (inr (b, there)) h = step_symlink_metadata p _ h (
      rw there
        (remove_file-Runs p b there h (put_self missing s p, λ q ne. put_ne missing s p q ne)))

  file-Reads : (b : Bytes) → s p ≡ file b → E s → Reads quiet s E (read_state_file p) (some b)
  unfolding read_state_file
  file-Reads b there h =
      step_symlink_metadata p _ h
        (rw there (step_read_file p _ b there h (return-Runs _ (refl, refl))))

  missing-Reads : s p ≡ missing → E s → Reads quiet s E (read_state_file p) none
  unfolding read_state_file
  missing-Reads absent h = step_symlink_metadata p _ h (rw absent (return-Runs none (refl, refl)))

module _ (json : StateJson) (path tmp : FilePath) where
  -- The marker is in its file, or a write has stopped before its rename.
  pub record IsMarked (s : Files) (m : BootstrapState) : Type 0 where
    pub bytes : Bytes
    pub at_path : s path ≡ file bytes
    pub parsed : json.parse bytes ≡ some m
    pub tmp_plain : IsPlain (s tmp)

  pub record IsHalfMarked (s : Files) (m : BootstrapState) : Type 0 where
    pub bytes : Bytes
    pub gone : s path ≡ missing
    pub at_tmp : s tmp ≡ file bytes
    pub parsed : json.parse bytes ≡ some m

  abbrev pub Marks : Files → BootstrapState → Type 0
  Marks s m = IsMarked s m ⊎ IsHalfMarked s m

  -- A marker is read, and nothing changes.
  pub read_state_at-Reads :
      {quiet : Bool} {s : Files} {E : Files → Type 0} (m : BootstrapState)
      → Marks s m
      → E s
      → Reads quiet s E (read_state_at json path tmp) (some m)
  unfolding read_state_at
  read_state_at-Reads m (inl k) h =
      step_reads _ _ (file-Reads path k.bytes k.at_path h)
        (step_from_option _ _ m unparsable k.parsed (return-Runs _ (refl, refl)))
  read_state_at-Reads m (inr k) h = step_reads _ _ (missing-Reads path k.gone h) (
      step_reads _ _ (file-Reads tmp k.bytes k.at_tmp h)
        (step_from_option _ _ m unparsable k.parsed (return-Runs _ (refl, refl))))

  pub read_none-Reads :
      {quiet : Bool} {s : Files} {E : Files → Type 0}
      → s path ≡ missing
      → s tmp ≡ missing
      → E s
      → Reads quiet s E (read_state_at json path tmp) none
  unfolding read_state_at
  read_none-Reads gone free h =
      step_reads _ none (missing-Reads path gone h)
        (step_reads _ none (missing-Reads tmp free h) (return-Runs none (refl, refl)))

  -- No marker in its own file, and a temporary file that does not parse: the reader refuses, and
  -- goes on refusing, since nothing changes.
  pub torn_marker_refused :
      {s : Files} (b : Bytes)
      → s path ≡ missing
      → s tmp ≡ file b
      → json.parse b ≡ none
      → Runs false s (read_state_at json path tmp) (λ r t. ⊥) (λ t. t ≡ s)
  unfolding read_state_at
  torn_marker_refused b gone there bad =
      step_reads _ _ (missing-Reads path gone refl)
        (step_reads _ _ (file-Reads tmp b there refl) (rw bad (stop-Runs _ unparsable refl refl)))

  module _ (apart : path ≢ tmp) where
    abbrev full_text : BootstrapState → Bytes
    full_text m = json.render m ++ b'\n' ∷ []

    -- No file but the marker's two differs.
    abbrev pub Elsewhere : Files → Files → Type 0
    Elsewhere s t = (q : FilePath) → q ≢ path → q ≢ tmp → t q ≡ s q

    -- Nothing but the temporary file has changed.
    abbrev pub Begun : Files → Files → Type 0
    Begun s t = (t path ≡ s path) × IsPlain (t tmp) × Elsewhere s t

    Begun-put : {s t : Files} (b : Bytes) → Begun s t → Begun s (put tmp (file b) t)
    Begun-put {s} {t} b (kept, plain, same) = (
      put_ne _ t tmp path apart ∙ kept,
      inr (b, put_self _ t tmp),
      λ q x y. put_ne _ t tmp q y ∙ same q x y,
    )

    module _ {quiet : Bool} {s : Files} {E : Files → Type 0} (m : BootstrapState) where
      -- A write, where `E` holds as long as nothing but the temporary file has changed, and where
      -- the new marker stands.
      pub write_state_at-Runs :
          IsPlain (s path)
          → IsPlain (s tmp)
          → ((t : Files) → Begun s t → E t)
          → ((t : Files) → Marks t m → Elsewhere s t → E t)
          → Runs quiet s
              (write_state_at json path tmp m)
              (λ _ t. IsMarked t m × (t tmp ≡ missing) × Elsewhere s t)
              E
      unfolding write_state_at create rename moved
      write_state_at-Runs path_plain tmp_plain early late =
          bind _ (remove_state_file-Runs tmp tmp_plain (early s first)) λ _ t (gone, same).
            let begun : Begun s t = (same path apart, inl gone, λ q a b. same q b) in
            let once = Begun-put [] begun in
            let twice = Begun-put (json.render m) once in
            step whole _ _ tt (put tmp (file []) t) (rw (gone, make_or_truncate) refl)
              (λ n. early t begun)
              (step_append tmp _ [] (json.render m) (put_self _ t tmp)
                (λ n. early _ (Begun-put (take n (json.render m)) once))
                (step_append tmp _ (json.render m) (b'\n' ∷ [])
                  (put_self _ (put tmp (file []) t) tmp)
                  (λ n. early _ (Begun-put (json.render m ++ take n (b'\n' ∷ [])) twice))
                  (step_touch _ (early _ (Begun-put (full_text m) twice)) (
                    settle _ (Begun-put (full_text m) twice)
                      (put_self _ (put tmp (file (json.render m)) (put tmp (file []) t)) tmp)))))
        where
          first : Begun s s
          first = (refl, tmp_plain, λ q a b. refl)

          rename_over :
              (u : Files)
              → u path ≡ missing
              → u tmp ≡ file (full_text m)
              → Elsewhere s u
              → Runs quiet u
                  (rename tmp path)
                  (λ _ v. IsMarked v m × (v tmp ≡ missing) × Elsewhere s v)
                  E
          rename_over u gone held same =
              let away = moved_from tmp path (full_text m) u (λ e. apart (sym e)) in
              syscall-Runs whole _ tt (moved tmp path (full_text m) u) (rw (held, gone, move) refl)
                (λ n.
                  late u
                    (inr (record {
                      bytes = full_text m;
                      gone = gone;
                      at_tmp = held;
                      parsed = json.parse-render m;
                    }))
                    same)
                (
                  record {
                    bytes = full_text m;
                    at_path = moved_to tmp path (full_text m) u;
                    parsed = json.parse-render m;
                    tmp_plain = inl away;
                  },
                  away,
                  λ q a b. moved_else tmp path (full_text m) u q b a ∙ same q a b,
                )

          settle :
              (t : Files)
              → Begun s t
              → t tmp ≡ file (full_text m)
              → Runs quiet t
                  (remove_state_file path >> rename tmp path)
                  (λ _ v. IsMarked v m × (v tmp ≡ missing) × Elsewhere s v)
                  E
          settle t (kept, plain, elsewhere) there =
              bind _
                (remove_state_file-Runs path (rw kept path_plain)
                  (early t (kept, plain, elsewhere)))
                λ _ u (gone, same).
                  rename_over u gone (same tmp (λ e. apart (sym e)) ∙ there)
                    (λ q a b. same q a ∙ elsewhere q a b)

    -- Whatever fails while a marker is replaced, and wherever the process stops, the next reader
    -- finds the old marker or the new one; if the write returns, it finds the new one. The old
    -- marker is in its file at the start, and the two paths differ.
    pub marker_survives :
        {quiet : Bool} {s : Files} (old new : BootstrapState)
        → IsMarked s old
        → Runs quiet s
            (write_state_at json path tmp new)
            (λ _ t. IsMarked t new)
            (λ t. Marks t old ⊎ Marks t new)
    marker_survives old new was =
        weaken
          (write_state_at-Runs new (inr (was.bytes, was.at_path)) was.tmp_plain
            (λ t (kept, plain, _). inl (
              inl (record {
                bytes = was.bytes;
                at_path = kept ∙ was.at_path;
                parsed = was.parsed;
                tmp_plain = plain;
              })))
            (λ t marks _. inr marks))
          (λ _ t (marked, _, _). marked) (λ t h. h)

    pub validate-Reads :
        {quiet : Bool} {s : Files} {E : Files → Type 0} (identity : BootstrapIdentity)
        → Reads quiet s E (validate_identity_for (current installing identity) identity) tt
    unfolding validate_identity_for current
    validate-Reads identity = step_guard _ _ wrong_schema refl (
        step_guard _ _ _ (==-refl identity.display_name) (
          step_guard _ _ _ (==-refl identity.install_name)
            (step_guard _ _ _ (==-refl identity.metadata_file) (return-Runs tt (refl, refl)))))

    -- A marker that is written where none stood, by a run that is not disturbed, is read back and
    -- accepted for the same identity. The two paths differ and hold no entry or a regular file.
    pub marker_accepted :
        {s : Files} (identity : BootstrapIdentity)
        → IsPlain (s path)
        → IsPlain (s tmp)
        → Runs true s
            (write_state_at json path tmp (current installing identity)
              >> (read_state_at json path tmp >>= λ found.
                  from_option found unparsable >>= λ state. validate_identity_for state identity))
            (λ _ t. IsMarked t (current installing identity))
            (λ t. Unit {0})
    marker_accepted identity p q =
        bind _ (write_state_at-Runs (current installing identity) p q (λ t _. tt) (λ t _ _. tt))
          λ _ t (marked, _, _).
            step_reads _ _ (read_state_at-Reads (current installing identity) (inl marked) tt) (
              step_from_option _ _ (current installing identity) unparsable refl
                (weaken (validate-Reads identity) (λ a u (_, same). rw same marked) (λ u h. h)))

    -- The files after a first write that ends with `n` bytes of the JSON.
    abbrev torn_at : ℕ → BootstrapState → Files → Files
    torn_at n m s = put tmp (file (take n (json.render m))) (put tmp (file []) s)

    stops :
        (s : Files) (m : BootstrapState) (n : ℕ)
        → s tmp ≡ missing
        → (write_state_at json path tmp m (start s (fine ∷ fine ∷ crashes n ∷ []))
            ≡ crash (start (torn_at n m s) []))
          × (write_state_at json path tmp m (start s (fine ∷ fine ∷ fails n ∷ []))
              ≡ err io_failed (start (torn_at n m s) []))
    unfolding write_state_at remove_state_file symlink_metadata create append syscall ◌>>=◌
    stops s m n free = (
      rw (free, ◌>>◌) (rw (free, make_or_truncate, ◌>>◌) (rw (put_self (file []) s tmp) refl)),
      rw (free, ◌>>◌) (rw (free, make_or_truncate, ◌>>◌) (rw (put_self (file []) s tmp) refl)),
    )

    -- A process that stops, or that the system fails, while the JSON of the first marker is
    -- written, at a point where what was written does not parse, leaves files on which every reader
    -- fails. No marker and no temporary file stood there, and the two paths differ.
    pub interrupted_marker_refused :
        (s : Files) (m : BootstrapState) (n : ℕ)
        → s path ≡ missing
        → s tmp ≡ missing
        → json.parse (take n (json.render m)) ≡ none
        → (t : Files) × (write_state_at json path tmp m (start s (fine ∷ fine ∷ crashes n ∷ []))
            ≡ crash (start t []))
          × (write_state_at json path tmp m (start s (fine ∷ fine ∷ fails n ∷ []))
              ≡ err io_failed (start t []))
          × Runs false t (read_state_at json path tmp) (λ r u. ⊥) (λ u. u ≡ t)
    interrupted_marker_refused s m n gone free bad =
        let (stopped, failed) = stops s m n free in
        (
          torn_at n m s,
          stopped,
          failed,
          torn_marker_refused (take n (json.render m))
              (put_ne _ (put tmp (file []) s) tmp path apart ∙ (put_ne _ s tmp path apart ∙ gone))
              (put_self _ (put tmp (file []) s) tmp) bad,
        )
