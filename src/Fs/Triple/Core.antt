-- ===== src/Fs/Triple/Core.antt =====
-- What holds after code that makes calls of the system. One statement covers two readings: with
-- `quiet = true` no call is disturbed and the code must succeed; with `quiet = false` any call may
-- fail or be the last one, and then the files must be as `E` says.
use conda_ship.Prelude.{ℕ, Bool, true, false, List, [], ◌∷◌, ◌≡◌, refl, ◌⊎◌, inl, inr}
use conda_ship.Fs.Failure.{Failure, io_failed}
use conda_ship.Fs.Calls.{
  Files, Fault, fine, fails, crashes, World, Outcome, ok, err, crash, M, ◌>>=◌, return, fail,
  attempt, Answer, done, refused, strike, syscall, whole,
}

abbrev pub Quiet : Bool → List Fault → Type 0
Quiet true faults = faults ≡ []
Quiet false faults = Unit {0}

abbrev pub Broken : Bool → Type 0 → Type 0
Broken true X = ⊥
Broken false X = X

abbrev pub After :
    {A : Type 0} → Bool → (A → Files → Type 0) → (Files → Type 0) → Outcome A → Type 0
After quiet Q E (ok a w) = Q a w.files × Quiet quiet w.faults
After quiet Q E (err e w) = Broken quiet (E w.files)
After quiet Q E (crash w) = Broken quiet (E w.files)

abbrev pub start : Files → List Fault → World
start s faults = record { files = s; faults = faults }

-- `m`, run on the files `s`.
pub record Runs {A : Type 0} (quiet : Bool) (s : Files) (m : M A) (Q : A → Files → Type 0)
    (E : Files → Type 0) : Type 0 where
  pub after : (faults : List Fault) → Quiet quiet faults → After quiet Q E (m (start s faults))

module _ {A B : Type 0} {quiet : Bool} {Q : A → Files → Type 0} {R : B → Files → Type 0}
    {E : Files → Type 0} where
  bind-After :
      (f : A → M B) (o : Outcome A)
      → ((a : A) (s : Files) → Q a s → Runs quiet s (f a) R E)
      → After quiet Q E o
      → After quiet R E (elim o [ ok a w' ↦ f a w' | err e w' ↦ err e w' | crash w' ↦ crash w' ])
  bind-After f (ok a w) k (q, calm) = (k a w.files q).after w.faults calm
  bind-After f (err e w) k h = h
  bind-After f (crash w) k h = h

module _ {A B : Type 0} {quiet : Bool} {s : Files} {m : M A} {f : A → M B} {R : B → Files → Type 0}
    {E : Files → Type 0} where
  -- Code that ends as `Q` says, then code that starts there.
  pub bind :
      (Q : A → Files → Type 0)
      → Runs quiet s m Q E
      → ((a : A) (s' : Files) → Q a s' → Runs quiet s' (f a) R E)
      → Runs quiet s (m >>= f) R E
  unfolding ◌>>=◌
  bind Q h k = record {
    after = λ faults calm. bind-After f (m (start s faults)) k (h.after faults calm);
  }

broken_map : (b : Bool) {X Y : Type 0} → (X → Y) → Broken b X → Broken b Y
broken_map true f h = h
broken_map false f h = f h

module _ {A : Type 0} {Q R : A → Files → Type 0} {E E' : Files → Type 0} where
  weaken-After :
      (q : Bool) (o : Outcome A)
      → ((a : A) (s : Files) → Q a s → R a s)
      → ((s : Files) → E s → E' s)
      → After q Q E o
      → After q R E' o
  weaken-After q (ok a w) f g (h, calm) = (f a w.files h, calm)
  weaken-After q (err e w) f g h = broken_map q (g w.files) h
  weaken-After q (crash w) f g h = broken_map q (g w.files) h

  pub weaken :
      {quiet : Bool} {s : Files} {m : M A}
      → Runs quiet s m Q E
      → ((a : A) (s : Files) → Q a s → R a s)
      → ((s : Files) → E s → E' s)
      → Runs quiet s m R E'
  weaken {quiet} {s} {m} h f g = record {
    after = λ faults calm. weaken-After quiet (m (start s faults)) f g (h.after faults calm);
  }

module _ {A : Type 0} {quiet : Bool} {E : Files → Type 0} {Q : A → Files → Type 0} {s : Files} where
  pub return-Runs : (a : A) → Q a s → Runs quiet s (return a) Q E
  return-Runs a q = record { after = λ faults calm. (q, calm) }

  pub fail-Runs : (e : Failure) → quiet ≡ false → E s → Runs quiet s (fail e) Q E
  fail-Runs e loud h = record { after = λ faults calm. rw loud h }

  pub syscall-Runs :
      (torn : ℕ → Files → Files) (act : Files → Answer A) (a : A) (s' : Files)
      → act s ≡ done a s'
      → ((n : ℕ) → E (torn n s))
      → Q a s'
      → Runs quiet s (syscall torn act) Q E
  unfolding syscall
  syscall-Runs torn act a s' e h q = record {
    after = λ faults calm. strike-After quiet faults calm;
  }
    where
      strike-After :
          (b : Bool) (faults : List Fault) → Quiet b faults → After b Q E (strike torn act s faults)
      strike-After b [] calm = rw e (q, calm)
      strike-After true (x ∷ faults) calm = cc
      strike-After false (fine ∷ faults) calm = rw e (q, tt)
      strike-After false (fails n ∷ faults) calm = h n
      strike-After false (crashes n ∷ faults) calm = h n

-- One call of the system, in front of the rest of the code.
module _ {A B : Type 0} {quiet : Bool} {s : Files} {R : B → Files → Type 0} {E : Files → Type 0}
    (torn : ℕ → Files → Files) (act : Files → Answer A) where
  pub step :
      (f : A → M B) (a : A) (s' : Files)
      → act s ≡ done a s'
      → ((n : ℕ) → E (torn n s))
      → Runs quiet s' (f a) R E
      → Runs quiet s (syscall torn act >>= f) R E
  step f a s' e h k =
      bind (λ b t. (b ≡ a) × (t ≡ s')) (syscall-Runs torn act a s' e h (refl, refl))
        (λ b t same. rw (same.0, same.1) k)

module _ {A B : Type 0} {quiet : Bool} {s : Files} {R : B → Files → Type 0} {E : Files → Type 0}
    (act : Files → Answer A) where
  -- The same under a `match` on the result: a failure is not the end.
  pub step_try :
      (g : Failure ⊎ A → M B) (a : A) (s' : Files)
      → act s ≡ done a s'
      → E s
      → Runs quiet s' (g (inr a)) R E
      → (quiet ≡ false → Runs quiet s (g (inl io_failed)) R E)
      → Runs quiet s (attempt (syscall whole act) >>= g) R E
  unfolding syscall attempt ◌>>=◌
  step_try g a s' e h k k' = record { after = λ faults calm. try-after quiet faults calm k k' }
    where
      try-after :
          (b : Bool) (faults : List Fault)
          → Quiet b faults
          → Runs b s' (g (inr a)) R E
          → (b ≡ false → Runs b s (g (inl io_failed)) R E)
          → After b R E ((attempt (syscall whole act) >>= g) (start s faults))
      try-after b [] calm k k' = rw (e, After) (k.after [] calm)
      try-after true (x ∷ faults) calm k k' = cc
      try-after false (fine ∷ faults) calm k k' = rw (e, After) (k.after faults tt)
      try-after false (fails n ∷ faults) calm k k' = (k' refl).after faults tt
      try-after false (crashes n ∷ faults) calm k k' = h

  -- Where the system refuses, and the code goes on.
  pub step_refused :
      (g : Failure ⊎ A → M B) (e : Failure)
      → act s ≡ refused e
      → E s
      → Runs quiet s (g (inl e)) R E
      → (quiet ≡ false → Runs quiet s (g (inl io_failed)) R E)
      → Runs quiet s (attempt (syscall whole act) >>= g) R E
  unfolding syscall attempt ◌>>=◌
  step_refused g x e h k k' = record { after = λ faults calm. try-after quiet faults calm k k' }
    where
      try-after :
          (b : Bool) (faults : List Fault)
          → Quiet b faults
          → Runs b s (g (inl x)) R E
          → (b ≡ false → Runs b s (g (inl io_failed)) R E)
          → After b R E ((attempt (syscall whole act) >>= g) (start s faults))
      try-after b [] calm k k' = rw (e, After) (k.after [] calm)
      try-after true (y ∷ faults) calm k k' = cc
      try-after false (fine ∷ faults) calm k k' = rw (e, After) (k.after faults tt)
      try-after false (fails n ∷ faults) calm k k' = (k' refl).after faults tt
      try-after false (crashes n ∷ faults) calm k k' = h
