-- ===== src/Commands/Prepared.antt =====
-- A prefix whose installation has been marked, while src/commands.rs fills it.
use conda_ship.Prelude.{Bool, Bytes, [], ◌≡◌, ◌≢◌, refl, sym, ◌∙◌, inl, inr}
use conda_ship.Fs.FilePath.{FilePath, with_extension}
use conda_ship.Fs.Calls.{
  Files, Node, link, done, missing, directory, file, put, put_self, put_ne, create,
  make_or_truncate, append, extend, whole,
}
use conda_ship.Fs.Triple.{Runs, bind, weaken, step, syscall-Runs}
use conda_ship.Config.Holds.{IsPlain, remove_regular_file_if_present-Runs}
use conda_ship.Config.Store.{
  invalidate_metadata_for, metadata_path_for, temporary_metadata_path_for, backup_metadata_path_for,
}
use conda_ship.Config.Initial.{write_file}
use conda_ship.BootstrapState.Marker.{path, temporary_path}
use conda_ship.Commands.Disposition.{ManagedPrefixIdentity, Surroundings}
use conda_ship.Commands.States.{
  IsLaidOut, laid-IsBelow, Marked, metadata_path, temporary, backup, Shows, interrupted,
}
use conda_ship.Commands.Executable.{above-ne}

extend-else :
    (p : FilePath) (n : Node) (b : Bytes) (s : Files) (q : FilePath)
    → q ≢ p
    → extend p n b s q ≡ s q
extend-else p missing b s q e = refl
extend-else p directory b s q e = refl
extend-else p (file old) b s q e = put_ne _ s p q e
extend-else p (link r) b s q e = refl

-- All files but one stay.
abbrev pub OnlyChanges : FilePath → Files → Files → Type 0
OnlyChanges p s t = (q : FilePath) → q ≢ p → t q ≡ s q

module _ {quiet : Bool} {s : Files} {E : Files → Type 0} (p : FilePath) where
  -- A file is written, and no other changes.
  pub write_file-Runs :
      (b : Bytes)
      → IsPlain (s p)
      → ((t : Files) → OnlyChanges p s t → E t)
      → Runs quiet s (write_file p b) (λ _ t. (t p ≡ file b) × OnlyChanges p s t) E
  unfolding write_file create append
  write_file-Runs b plain k =
      step whole _ _ tt (put p (file []) s) (made (s p) plain) (λ n. k s (λ q e. refl))
        (syscall-Runs _ _ tt (extend p (put p (file []) s p) b (put p (file []) s)) refl
          (λ n. k _ (λ q e. extend-else p _ _ (put p (file []) s) q e ∙ put_ne (file []) s p q e))
          (
            rw (put_self (file []) s p, extend) (put_self (file b) (put p (file []) s) p),
            λ q e. extend-else p _ _ (put p (file []) s) q e ∙ put_ne (file []) s p q e,
          ))
    where
      made : (n : Node) → IsPlain n → make_or_truncate p n s ≡ done tt (put p (file []) s)
      made n (inl e) = rw e refl
      made n (inr (old, e)) = rw e refl

-- The files of a prefix that the program keeps for itself.
module _ (around : Surroundings) (prefix : FilePath) (identity : ManagedPrefixIdentity) where
  pub data IsKept : FilePath → Type 0 where
    at_marker : IsKept (path prefix)
    at_marker_tmp : IsKept (temporary_path prefix)
    at_metadata : IsKept (metadata_path around prefix identity)
    at_temporary : IsKept (temporary around prefix identity)
    at_backup : IsKept (backup around prefix identity)
    at_prefix : IsKept prefix

  -- A path that is none of them.
  pub none-Kept :
      (p : FilePath)
      → p ≢ path prefix
      → p ≢ temporary_path prefix
      → p ≢ metadata_path around prefix identity
      → p ≢ temporary around prefix identity
      → p ≢ backup around prefix identity
      → p ≢ prefix
      → ¬ IsKept p
  none-Kept p a b c d e f kept = sort _ kept refl
    where
      sort : (q : FilePath) → IsKept q → p ≡ q → ⊥
      sort _ at_marker same = a same
      sort _ at_marker_tmp same = b same
      sort _ at_metadata same = c same
      sort _ at_temporary same = d same
      sort _ at_backup same = e same
      sort _ at_prefix same = f same

  -- Code of others, and the policy, leave those files alone.
  abbrev pub Keeps : Files → Files → Type 0
  Keeps s t = (q : FilePath) → IsKept q → t q ≡ s q

  -- The five files apart, nothing has changed.
  abbrev pub SameOutside : Files → Files → Type 0
  SameOutside s t = (q : FilePath) → ¬ IsKept q → t q ≡ s q

  -- The marker is in place, and there is no metadata.
  abbrev pub Prepared : Files → Type 0
  Prepared s =
      Marked around prefix identity s
      × (s (metadata_path around prefix identity) ≡ missing)
      × IsPlain (s (temporary around prefix identity))
      × IsPlain (s (backup around prefix identity))
      × (s prefix ≡ directory)

  pub carry-Prepared : {s t : Files} → Keeps s t → Prepared s → Prepared t
  carry-Prepared {s} {t} same ((marked, free), gone, tmp_plain, bak_plain, there) = (
    (
      record {
        bytes = marked.bytes;
        at_path = same _ at_marker ∙ marked.at_path;
        parsed = marked.parsed;
        tmp_plain = inl (same _ at_marker_tmp ∙ free);
      },
      same _ at_marker_tmp ∙ free,
    ),
    same _ at_metadata ∙ gone,
    rw (same _ at_temporary) tmp_plain,
    rw (same _ at_backup) bak_plain,
    same _ at_prefix ∙ there,
  )

  pub Prepared-interrupted : {s : Files} → Prepared s → Shows around prefix identity interrupted s
  Prepared-interrupted ((marked, free), gone, tmp_plain, bak_plain, there) =
      (inl marked, gone, there)

  module _ (laid : IsLaidOut around prefix identity) where
    -- Nothing but one file has changed, which is not the marker's.
    rest-Prepared :
        {s t : Files} (p : FilePath)
        → path prefix ≢ p
        → temporary_path prefix ≢ p
        → prefix ≢ p
        → OnlyChanges p s t
        → Prepared s
        → t (metadata_path around prefix identity) ≡ missing
        → IsPlain (t (temporary around prefix identity))
        → IsPlain (t (backup around prefix identity))
        → Prepared t
    rest-Prepared p a b c same ((marked, free), _, _, _, there) gone tmp_plain bak_plain = (
      (
        record {
          bytes = marked.bytes;
          at_path = same _ a ∙ marked.at_path;
          parsed = marked.parsed;
          tmp_plain = inl (same _ b ∙ free);
        },
        same _ b ∙ free,
      ),
      gone,
      tmp_plain,
      bak_plain,
      same prefix c ∙ there,
    )

    -- The old metadata files are removed.
    pub invalidate-Runs :
        {quiet : Bool} {s : Files} {E : Files → Type 0}
        → ((t : Files) → Prepared t → E t)
        → Prepared s
        → Runs quiet s
            (invalidate_metadata_for prefix identity.metadata_file)
            (λ _ t. Prepared t × SameOutside s t)
            E
    unfolding invalidate_metadata_for metadata_path_for temporary_metadata_path_for
        backup_metadata_path_for with_extension
    invalidate-Runs {s = s} k p =
        let (_, gone, tmp_plain, bak_plain, _) = p in
        bind _ (remove_regular_file_if_present-Runs _ (inl gone) (k s p)) λ _ t (a, same).
          let p' : Prepared t =
            rest-Prepared _ laid.marker_metadata laid.tmp_metadata
              (above-ne prefix _ (laid-IsBelow around prefix identity laid).metadata_below) same p a
              (rw (same _ (λ e. laid.distinct.path_tmp (sym e))) tmp_plain)
              (rw (same _ (λ e. laid.distinct.path_bak (sym e))) bak_plain) in
          bind _ (remove_regular_file_if_present-Runs _ p'.2 (k t p')) λ _ u (b, same').
            let q : Prepared u =
              rest-Prepared _ laid.marker_temporary laid.tmp_temporary
                (above-ne prefix _ (laid-IsBelow around prefix identity laid).temporary_below) same'
                p' (same' _ laid.distinct.path_tmp ∙ a) (inl b)
                (rw (same' _ (λ e. laid.distinct.tmp_bak (sym e))) p'.3) in
            weaken (remove_regular_file_if_present-Runs _ q.3 (k u q))
              (λ _ v (c, same''). (
                rest-Prepared _ laid.marker_backup laid.tmp_backup
                    (above-ne prefix _ (laid-IsBelow around prefix identity laid).backup_below)
                    same'' q
                    (same'' _ laid.distinct.path_bak ∙ (same' _ laid.distinct.path_tmp ∙ a))
                    (inl (same'' _ laid.distinct.tmp_bak ∙ b)) (inl c),
                λ r other.
                    same'' r (λ e. other (rw e at_backup))
                    ∙ (same' r (λ e. other (rw e at_temporary))
                        ∙ same r (λ e. other (rw e at_metadata))),
              ))
              (λ v h. h)
