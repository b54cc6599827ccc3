-- ===== src/Fs/Reads.antt =====
-- Code that answers and changes no file.
use conda_ship.Prelude.{Bool, true, Option, some, ◌≡◌, ◌⊎◌, inl, inr, ap}
use conda_ship.Fs.Failure.{Failure}
use conda_ship.Fs.Calls.{Files, M, ◌>>=◌, guard, from_option, attempt, Outcome, ok, err, crash}
use conda_ship.Fs.Triple.{Runs, bind, step_return, After, start}

abbrev pub Reads : {A : Type 0} → Bool → Files → (Files → Type 0) → M A → A → Type 0
Reads quiet s E m a = Runs quiet s m (λ r t. (r ≡ a) × (t ≡ s)) E

module _ {A B : Type 0} {quiet : Bool} {s : Files} {R : B → Files → Type 0} {E : Files → Type 0}
    (f : A → M B) where
  pub step_reads :
      {m : M A} (a : A) → Reads quiet s E m a → Runs quiet s (f a) R E → Runs quiet s (m >>= f) R E
  step_reads a h k = bind _ h (λ r t same. rw (same.0, same.1) k)

  pub step_from_option :
      (o : Option A) (a : A) (e : Failure)
      → o ≡ some a
      → Runs quiet s (f a) R E
      → Runs quiet s (from_option o e >>= f) R E
  step_from_option o a e h k = rw h (step_return a f k)

module _ {B : Type 0} {quiet : Bool} {s : Files} {R : B → Files → Type 0} {E : Files → Type 0}
    (f : Unit {0} → M B) where
  pub step_guard :
      (b : Bool) (e : Failure)
      → b ≡ true
      → Runs quiet s (f tt) R E
      → Runs quiet s (guard b e >>= f) R E
  step_guard b e h k = rw h (step_return tt f k)

-- A test that is sure to succeed.
pub attempt-Reads :
    {A : Type 0} {s : Files} {E : Files → Type 0} {m : M A} (a : A)
    → Reads true s E m a
    → Reads true s E (attempt m) (inr a)
unfolding attempt
attempt-Reads {A = A} {s = s} {E = E} {m = m} a h = record {
  after = λ faults calm. sort (m (start s faults)) (h.after faults calm);
}
  where
    sort :
        (o : Outcome A)
        → After true (λ r t. (r ≡ a) × (t ≡ s)) E o
        → After {A = Failure ⊎ A} true
            (λ r t. (r ≡ inr a) × (t ≡ s))
            E
            (elim o [ ok b w ↦ ok (inr b) w | err e w ↦ ok (inl e) w | crash w ↦ crash w ])
    sort (ok b w) ((same, still), calm) = ((ap inr same, still), calm)
    sort (err e w) h = absurd h
    sort (crash w) h = absurd h
