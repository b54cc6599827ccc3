-- ===== src/RuntimeUpdate/Order.antt =====
-- The order of candidates, and what is last after the sort of `select_candidate` in
-- src/runtime_update.rs.
use Prim.Native.Nat.{compare}
use conda_ship.Prelude.{
  ℕ, true, false, Option, none, some, List, [], ◌∷◌, if◌then◌else◌, ◌≡◌, refl, arith, Bool-cases,
  inl, inr, ◌∙◌, ap,
}
use conda_ship.RuntimeUpdate.Packages.{Conda, SelectedPackage, Key, key_le, reverse}
use conda_ship.RuntimeUpdate.Select.{candidate_le, insert, sort, pop}

-- Reversed comparisons of versions, and of numbers.
compare-reverse : (m n : ℕ) → compare n m ≡ reverse (compare m n)
compare-reverse m n = ground arith

module _ (conda : Conda) where
  pub key_le_total : (a b : Key conda) → key_le conda a b ≡ false → key_le conda b a ≡ true
  unfolding key_le
  key_le_total a b h = ground (arith, conda.cmp_reverse a.0 b.0, compare-reverse a.1 b.1)

  pub key_le_trans :
      (a b c : Key conda)
      → key_le conda a b ≡ true
      → key_le conda b c ≡ true
      → key_le conda a c ≡ true
  unfolding key_le
  key_le_trans a b c h k = ground (
    arith,
    conda.cmp_trans a.0 b.0 c.0,
    conda.cmp_trans b.0 c.0 a.0,
    conda.cmp_trans c.0 a.0 b.0,
    conda.cmp_reverse a.0 b.0,
    conda.cmp_reverse b.0 c.0,
    conda.cmp_reverse a.0 c.0,
  )

  pub key_le_refl : (a : Key conda) → key_le conda a a ≡ true
  key_le_refl a = elim (Bool-cases (key_le conda a a)) [ inl e ↦ e | inr e ↦ key_le_total a a e ]

  -- The later of two candidates, where `c` came first.
  abbrev pub later :
      SelectedPackage conda → Option (SelectedPackage conda) → Option (SelectedPackage conda)
  later c none = some c
  later c (some d) = if candidate_le conda c d then some d else some c

  -- The last of the newest candidates, found without a sort.
  unfoldable pub newest : List (SelectedPackage conda) → Option (SelectedPackage conda)
  newest [] = none
  newest (c ∷ rest) = later c (newest rest)

  Below : SelectedPackage conda → List (SelectedPackage conda) → Type 0
  Below c [] = Unit {0}
  Below c (d ∷ rest) = (candidate_le conda c d ≡ true) × Below c rest

  IsSorted : List (SelectedPackage conda) → Type 0
  unfolding Below
  IsSorted [] = Unit {0}
  IsSorted (c ∷ rest) = Below c rest × IsSorted rest

  Below-trans :
      (b c : SelectedPackage conda) (xs : List (SelectedPackage conda))
      → candidate_le conda b c ≡ true
      → Below c xs
      → Below b xs
  unfolding Below
  Below-trans b c [] h k = tt
  Below-trans b c (d ∷ rest) h (k, ks) = (key_le_trans _ _ _ h k, Below-trans b c rest h ks)

  insert-Below :
      (b c : SelectedPackage conda) (xs : List (SelectedPackage conda))
      → candidate_le conda b c ≡ true
      → Below b xs
      → Below b (insert conda c xs)
  unfolding Below insert
  insert-Below b c [] h k = (h, tt)
  insert-Below b c (d ∷ rest) h (k, ks) = elim (Bool-cases (candidate_le conda c d)) [
    | inl e ↦ rw e (h, (k, ks))
    | inr e ↦ rw e (k, insert-Below b c rest h ks)
  ]

  insert-IsSorted :
      (c : SelectedPackage conda) (xs : List (SelectedPackage conda))
      → IsSorted xs
      → IsSorted (insert conda c xs)
  unfolding IsSorted insert
  insert-IsSorted c [] h = (tt, tt)
  insert-IsSorted c (d ∷ rest) (h, hs) = elim (Bool-cases (candidate_le conda c d)) [
    | inl e ↦ rw e ((e, Below-trans c d rest e h), (h, hs))
    | inr e ↦ rw e (insert-Below d c rest (key_le_total _ _ e) h, insert-IsSorted c rest hs)
  ]

  sort-IsSorted : (xs : List (SelectedPackage conda)) → IsSorted (sort conda xs)
  unfolding IsSorted sort
  sort-IsSorted [] = tt
  sort-IsSorted (c ∷ rest) = insert-IsSorted c (sort conda rest) (sort-IsSorted rest)

  pop-Below :
      (c d : SelectedPackage conda) (xs : List (SelectedPackage conda))
      → candidate_le conda c d ≡ true
      → Below c xs
      → (m : SelectedPackage conda) × (pop conda (d ∷ xs) ≡ some m)
        × (candidate_le conda c m ≡ true)
  unfolding Below pop
  pop-Below c d [] h k = (d, refl, h)
  pop-Below c d (e ∷ rest) h (k, ks) = pop-Below c e rest k ks

  pop-insert :
      (c : SelectedPackage conda) (xs : List (SelectedPackage conda))
      → IsSorted xs
      → pop conda (insert conda c xs) ≡ later c (pop conda xs)
  unfolding pop insert IsSorted
  pop-insert c [] h = refl
  pop-insert c (d ∷ []) h = elim (Bool-cases (candidate_le conda c d)) [
    | inl e ↦ rw e refl
    | inr e ↦ rw e refl
  ]
  pop-insert c (d ∷ f ∷ rest) (h, hs) = elim (Bool-cases (candidate_le conda c d)) [
    | inl e ↦
        let (m, last, le) = pop-Below c d (f ∷ rest) e (Below-trans c d (f ∷ rest) e h) in
        rw (e, last) (rw le refl)
    | inr e ↦ rw e (pop_skip d f c rest ∙ pop-insert c (f ∷ rest) hs)
  ]
    where
      pop_skip :
          (d f c : SelectedPackage conda) (rest : List (SelectedPackage conda))
          → pop conda (d ∷ insert conda c (f ∷ rest)) ≡ pop conda (insert conda c (f ∷ rest))
      pop_skip d f c rest = elim (Bool-cases (candidate_le conda c f)) [
        | inl e ↦ rw e refl
        | inr e ↦ rw e refl
      ]

  -- The last candidate after the stable sort is the one that a single pass keeps: the newest, and
  -- of several newest ones the last.
  pub pop-sort :
      (candidates : List (SelectedPackage conda))
      → pop conda (sort conda candidates) ≡ newest candidates
  unfolding newest sort pop
  pop-sort [] = refl
  pop-sort (c ∷ rest) =
      pop-insert c (sort conda rest) (sort-IsSorted rest) ∙ ap (later c) (pop-sort rest)
