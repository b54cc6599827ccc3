-- ===== src/Fs/Triple/Calls.antt =====
-- `step` and its like for each call of the system.
use conda_ship.Prelude.{
  ℕ, Bool, true, false, Option, [], ◌++◌, Bytes, take, ◌≡◌, ◌≢◌, refl, ◌⊎◌, inl, inr,
}
use conda_ship.Fs.FilePath.{FilePath}
use conda_ship.Fs.Failure.{Failure, io_failed}
use conda_ship.Fs.Calls.{
  Node, missing, directory, file, link, Files, M, ◌>>=◌, return, fail, attempt, done, whole, put,
  kind, Kind, symlink_metadata, read_answer, follow, read_file, moved, move, there, exists, rename,
  unlink, remove_file, make, create_new, extend, append, touch,
}
use conda_ship.Fs.Triple.Core.{Runs, bind, return-Runs, syscall-Runs, step, step_try}

module _ {B : Type 0} {quiet : Bool} {s : Files} {R : B → Files → Type 0} {E : Files → Type 0} where
  pub step_symlink_metadata :
      (p : FilePath) (f : Option Kind → M B)
      → E s
      → Runs quiet s (f (kind (s p))) R E
      → Runs quiet s (symlink_metadata p >>= f) R E
  unfolding symlink_metadata
  step_symlink_metadata p f h k = step whole _ f _ s refl (λ n. h) k

  pub step_read_file :
      (p : FilePath) (f : Bytes → M B) (b : Bytes)
      → s p ≡ file b
      → E s
      → Runs quiet s (f b) R E
      → Runs quiet s (read_file p >>= f) R E
  unfolding read_file
  step_read_file p f b e h k = step whole _ f b s (rw (e, follow, read_answer)) (λ n. h) k

  pub step_touch :
      (f : Unit {0} → M B) → E s → Runs quiet s (f tt) R E → Runs quiet s (touch >>= f) R E
  unfolding touch
  step_touch f h k = step whole _ f tt s refl (λ n. h) k

  pub step_create_new :
      (p : FilePath) (f : Unit {0} → M B)
      → s p ≡ missing
      → E s
      → Runs quiet (put p (file []) s) (f tt) R E
      → Runs quiet s (create_new p >>= f) R E
  unfolding create_new
  step_create_new p f e h k = step whole _ f tt _ (rw (e, make)) (λ n. h) k

  pub step_append :
      (p : FilePath) (f : Unit {0} → M B) (old b : Bytes)
      → s p ≡ file old
      → ((n : ℕ) → E (put p (file (old ++ take n b)) s))
      → Runs quiet (put p (file (old ++ b)) s) (f tt) R E
      → Runs quiet s (append p b >>= f) R E
  unfolding append
  step_append p f old b e h k = step _ _ f tt _ (rw (e, extend)) (λ n. rw (e, extend) (h n)) k

  pub step_remove_file :
      (p : FilePath) (f : Unit {0} → M B) (b : Bytes)
      → s p ≡ file b
      → E s
      → Runs quiet (put p missing s) (f tt) R E
      → Runs quiet s (remove_file p >>= f) R E
  unfolding remove_file
  step_remove_file p f b e h k = step whole _ f tt _ (rw (e, unlink)) (λ n. h) k

  pub step_exists :
      (p : FilePath) (f : Bool → M B) (b : Bytes)
      → s p ≡ file b
      → E s
      → Runs quiet s (f true) R E
      → (quiet ≡ false → Runs quiet s (f false) R E)
      → Runs quiet s (exists p >>= f) R E
  unfolding exists
  step_exists p f b e h k k' =
      bind (λ c t. (t ≡ s) × ((c ≡ true) ⊎ (quiet ≡ false) × (c ≡ false)))
        (step_try _ _ true s (rw (e, follow, there)) h (return-Runs true (refl, inl refl))
          (λ loud. return-Runs false (refl, inr (loud, refl))))
        (λ c t same. rw (same.0) (Or-elim c same.1))
    where
      Or-elim : (c : Bool) → (c ≡ true) ⊎ (quiet ≡ false) × (c ≡ false) → Runs quiet s (f c) R E
      Or-elim c (inl e) = rw e k
      Or-elim c (inr (loud, e)) = rw e (k' loud)

  pub step_return :
      {A : Type 0} (a : A) (f : A → M B)
      → Runs quiet s (f a) R E
      → Runs quiet s (return a >>= f) R E
  unfolding ◌>>=◌
  step_return a f k = record { after = k.after }

  -- A guard that does not hold.
  pub stop-Runs :
      {A : Type 0} (f : A → M B) (e : Failure)
      → quiet ≡ false
      → E s
      → Runs quiet s (fail e >>= f) R E
  unfolding ◌>>=◌
  stop-Runs f e loud h = record { after = λ faults calm. rw loud h }

  pub step_rename :
      (p q : FilePath) (f : Unit {0} → M B) (b : Bytes)
      → s p ≡ file b
      → s q ≢ directory
      → E s
      → Runs quiet (moved p q b s) (f tt) R E
      → Runs quiet s (rename p q >>= f) R E
  unfolding rename moved
  step_rename p q f b e plain h k = step whole _ f tt _ (rw (e, move) (goes (s q) refl)) (λ n. h) k
    where
      goes :
          (n : Node) → s q ≡ n → move p q (file b) n s ≡ done tt (put q (file b) (put p missing s))
      goes missing e = refl
      goes directory e = absurd (plain e)
      goes (file c) e = refl
      goes (link r) e = refl

  pub step_try_rename :
      (p q : FilePath) (g : Failure ⊎ Unit {0} → M B) (b : Bytes)
      → s p ≡ file b
      → s q ≢ directory
      → E s
      → Runs quiet (moved p q b s) (g (inr tt)) R E
      → (quiet ≡ false → Runs quiet s (g (inl io_failed)) R E)
      → Runs quiet s (attempt (rename p q) >>= g) R E
  unfolding rename moved
  step_try_rename p q g b e plain h k k' = step_try _ g tt _ (rw (e, move) (goes (s q) refl)) h k k'
    where
      goes :
          (n : Node) → s q ≡ n → move p q (file b) n s ≡ done tt (put q (file b) (put p missing s))
      goes missing e = refl
      goes directory e = absurd (plain e)
      goes (file c) e = refl
      goes (link r) e = refl

module _ {quiet : Bool} {s : Files} {Q : Unit {0} → Files → Type 0} {E : Files → Type 0} where
  pub remove_file-Runs :
      (p : FilePath) (b : Bytes)
      → s p ≡ file b
      → E s
      → Q tt (put p missing s)
      → Runs quiet s (remove_file p) Q E
  unfolding remove_file
  remove_file-Runs p b e h q = syscall-Runs whole _ tt _ (rw (e, unlink)) (λ n. h) q

  pub touch-Runs : E s → Q tt s → Runs quiet s touch Q E
  unfolding touch
  touch-Runs h q = syscall-Runs whole _ tt s refl (λ n. h) q
