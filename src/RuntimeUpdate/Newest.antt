-- ===== src/RuntimeUpdate/Newest.antt =====
-- The package that is offered is the newest: what `select_candidate` of src/runtime_update.rs
-- promises.
use conda_ship.Prelude.{
  ℕ, Bytes, Bool, true, false, Option, none, some, List, [], ◌∷◌, Text, if◌then◌else◌, ◌≡◌, refl,
  sym, ◌∙◌, ap, ◌⊎◌, inl, inr, Bool-cases,
}
use conda_ship.Fs.Failure.{size_missing, digest_missing, invalid_package_name, invalid_version}
use conda_ship.Fs.Checked.{
  Checked, accepted, rejected, ◌>>=◌, need, accepted_eq, need_passed, bind_passed,
}
use conda_ship.RuntimeUpdate.Filenames.{IsArchiveName, validate_package_filename-IsArchiveName}
use conda_ship.RuntimeData.Header.{RuntimeDataHeader, RuntimeUpdateConfig}
use conda_ship.RuntimeUpdate.Packages.{Conda, RepoDataRecord, SelectedPackage, key, key_le}
use conda_ship.RuntimeUpdate.Select.{
  offered, describe, validate_package_filename, collect, pop, sort, select_candidate, candidate_le,
}
use conda_ship.Hash.{hex}
use conda_ship.RuntimeUpdate.Order.{
  key_le_refl, key_le_trans, key_le_total, newest, later, pop-sort,
}

-- What holds of each, and of some, element of a list.
abbrev pub All {ℓ} : {A : Type ℓ} → (A → Type 0) → List A → Type 0
All P [] = Unit {0}
All P (x ∷ xs) = P x × All P xs

abbrev pub Some {ℓ} : {A : Type ℓ} → (A → Type 0) → List A → Type 0
Some P [] = ⊥
Some P (x ∷ xs) = P x ⊎ Some P xs

module _ (conda : Conda) (wanted : RepoDataRecord conda → Bool) where
  -- What is needed to offer a record.
  pub record IsDescribable (r : RepoDataRecord conda) : Type 0 where
    pub size : ℕ
    pub sized : r.package_record.size ≡ some size
    pub digest : Bytes
    pub digested : r.package_record.sha256 ≡ some digest
    pub archive : IsArchiveName r.identifier

  -- A record that the loop does not skip can be offered.
  abbrev pub IsComplete : RepoDataRecord conda → Type 0
  IsComplete r = wanted r ≡ true → IsDescribable r

  abbrev pub IsNoNewer : SelectedPackage conda → RepoDataRecord conda → Type 0
  IsNoNewer c r = wanted r ≡ true → key_le conda (key conda r) (key conda c.repo_record) ≡ true

  -- The promise: nothing where no record is wanted, else a wanted record than which no wanted one
  -- is newer.
  abbrev pub Selects : List (RepoDataRecord conda) → Option (SelectedPackage conda) → Type 0
  Selects records none = All (λ r. wanted r ≡ false) records
  Selects records (some c) =
      (wanted c.repo_record ≡ true)
      × (describe conda c.repo_record ≡ accepted c)
      × Some (λ r. r ≡ c.repo_record) records
      × All (IsNoNewer c) records

  described_record :
      (r : RepoDataRecord conda) (c : SelectedPackage conda)
      → describe conda r ≡ accepted c
      → c.repo_record ≡ r
  unfolding describe
  described_record r c h =
      sort r.package_record.size r.package_record.sha256 (validate_package_filename r.identifier) h
    where
      sort :
          (size : Option ℕ) (digest : Option Bytes) (valid : Checked (Unit {0}))
          → (need size size_missing >>= λ n. need digest digest_missing >>= λ d. valid >>= λ _.
              accepted
                (record { repo_record = r; filename = r.identifier; sha256 = hex d; size = n }))
            ≡ accepted c
          → c.repo_record ≡ r
      sort none digest valid h = absurd (cc h)
      sort (some n) none valid h = absurd (cc h)
      sort (some n) (some d) (rejected e) h = absurd (cc h)
      sort (some n) (some d) (accepted _) h = ap (λ x. x.repo_record) (sym (accepted_eq _ c h))

  describable :
      (r : RepoDataRecord conda) (c : SelectedPackage conda)
      → describe conda r ≡ accepted c
      → IsDescribable r
  unfolding describe
  describable r c h =
      let (size, (sized, h1)) = need_passed r.package_record.size size_missing _ h in
      let (digest, (digested, h2)) = need_passed r.package_record.sha256 digest_missing _ h1 in
      let (_, (valid, _)) = bind_passed (validate_package_filename r.identifier) _ h2 in
      record {
        size = size;
        sized = sized;
        digest = digest;
        digested = digested;
        archive = (validate_package_filename-IsArchiveName r.identifier).0 valid;
      }

  described_by :
      (r : RepoDataRecord conda)
      → IsDescribable r
      → (c : SelectedPackage conda) × (describe conda r ≡ accepted c)
  unfolding describe
  described_by r k = (
    record { repo_record = r; filename = r.identifier; sha256 = hex k.digest; size = k.size },
    rw (k.sized, k.digested, (validate_package_filename-IsArchiveName r.identifier).1 k.archive)
        refl,
  )

  none_wanted :
      (c : SelectedPackage conda) (records : List (RepoDataRecord conda))
      → All (λ r. wanted r ≡ false) records
      → All (IsNoNewer c) records
  none_wanted c [] h = tt
  none_wanted c (r ∷ records) (h, hs) = (λ e. absurd (cc (e, h)), none_wanted c records hs)

  newer_than :
      (c d : SelectedPackage conda) (records : List (RepoDataRecord conda))
      → candidate_le conda d c ≡ true
      → All (IsNoNewer d) records
      → All (IsNoNewer c) records
  newer_than c d [] le h = tt
  newer_than c d (r ∷ records) le (h, hs) =
      (λ e. key_le_trans conda _ _ _ (h e) le, newer_than c d records le hs)

  module _ (r : RepoDataRecord conda) (records : List (RepoDataRecord conda)) where
    skip-Selects :
        (o : Option (SelectedPackage conda))
        → wanted r ≡ false
        → Selects records o
        → Selects (r ∷ records) o
    skip-Selects none e h = (e, h)
    skip-Selects (some c) e (w, d, there, all) = (w, d, inr there, (λ x. absurd (cc (x, e)), all))

    later-Selects :
        (c : SelectedPackage conda) (o : Option (SelectedPackage conda))
        → wanted r ≡ true
        → describe conda r ≡ accepted c
        → Selects records o
        → Selects (r ∷ records) (later conda c o)
    later-Selects c none e d h =
        let same = described_record r c d in
        (
          rw same e,
          ap (describe conda) same ∙ d,
          inl (sym same),
          (λ _. rw same (key_le_refl conda _), none_wanted c records h),
        )
    later-Selects c (some f) e d (w, g, there, all) =
        let same = described_record r c d in
        elim (Bool-cases (candidate_le conda c f)) [
          | inl le ↦ rw le (w, g, inr there, (λ _. rw (sym same) le, all))
          | inr gt ↦ rw gt (
            rw same e,
            ap (describe conda) same ∙ d,
            inl (sym same),
            (
              λ _. rw same (key_le_refl conda _),
              newer_than c f records (key_le_total conda _ _ gt) all,
            ),
          )
        ]

  collect-Selects :
      (records : List (RepoDataRecord conda))
      → All IsComplete records
      → (candidates : List (SelectedPackage conda)) × (collect conda wanted records
          ≡ accepted candidates)
        × Selects records (newest conda candidates)
  unfolding collect newest
  collect-Selects [] h = ([], refl, tt)
  collect-Selects (r ∷ records) (h, hs) =
      let (candidates, found, good) = collect-Selects records hs in
      elim (Bool-cases (wanted r)) [
        | inr e ↦ (candidates, rw e found, skip-Selects r records (newest conda candidates) e good)
        | inl e ↦
            let (c, d) = described_by r (h e) in
            (
              c ∷ candidates,
              rw (e, d, found) refl,
              later-Selects r records c (newest conda candidates) e d good,
            )
      ]

  collect-Complete :
      (records : List (RepoDataRecord conda)) (candidates : List (SelectedPackage conda))
      → collect conda wanted records ≡ accepted candidates
      → All IsComplete records
  unfolding collect
  collect-Complete [] candidates h = tt
  collect-Complete (r ∷ records) candidates h =
      sort (wanted r) refl (describe conda r) refl (collect conda wanted records) refl
        (collect-Complete records) h
    where
      sort :
          (b : Bool)
          → wanted r ≡ b
          → (d : Checked (SelectedPackage conda)) → describe conda r ≡ d
          → (rest : Checked (List (SelectedPackage conda))) → collect conda wanted records ≡ rest
          → ((cs : List (SelectedPackage conda))
              → collect conda wanted records ≡ accepted cs
              → All IsComplete records)
          → (if b then (d >>= λ c. rest >>= λ cs. accepted (c ∷ cs)) else rest)
            ≡ accepted candidates
          → All IsComplete (r ∷ records)
      sort false e d f rest g k h = (λ x. absurd (cc (x, e)), k candidates (g ∙ h))
      sort true e (rejected x) f rest g k h = absurd (cc h)
      sort true e (accepted c) f (rejected x) g k h = absurd (cc h)
      sort true e (accepted c) f (accepted cs) g k h = (λ _. describable r c f, k cs g)

module _ (conda : Conda) (header : RuntimeDataHeader) (update : RuntimeUpdateConfig)
    (platform package_name : Text) (current : conda.Version)
    (named : conda.parse_name update.package_name ≡ some package_name)
    (versioned : conda.parse_version header.runtime_version ≡ some current) where
  abbrev pub is_wanted : RepoDataRecord conda → Bool
  is_wanted = offered conda package_name platform (current, update.build_number)

  -- Where every record that is not skipped has a size, a digest and a valid file name, the
  -- selection succeeds, and offers nothing if every record is skipped, else a record of the channel
  -- that is not skipped and than which none such is newer. The name of the package and the current
  -- version are parsed.
  pub select_candidate-Selects :
      (repodata : List (RepoDataRecord conda))
      → All (IsComplete conda is_wanted) repodata
      → (o : Option (SelectedPackage conda)) × (select_candidate conda header update platform
            repodata
          ≡ accepted o)
        × Selects conda is_wanted repodata o
  unfolding select_candidate
  select_candidate-Selects repodata h =
      let (candidates, found, good) = collect-Selects conda is_wanted repodata h in
      (newest conda candidates, rw (named, versioned, found, pop-sort conda candidates) refl, good)

  -- If the selection succeeds, every record that is not skipped has a size, a digest and a valid
  -- file name, and the newest of them is offered: one bad record fails the selection. The name of
  -- the package and the current version are parsed.
  pub select_candidate-IsComplete :
      (repodata : List (RepoDataRecord conda)) (o : Option (SelectedPackage conda))
      → select_candidate conda header update platform repodata ≡ accepted o
      → All (IsComplete conda is_wanted) repodata × Selects conda is_wanted repodata o
  unfolding select_candidate
  select_candidate-IsComplete repodata o h =
      let all = complete (collect conda is_wanted repodata) refl (sym start ∙ h) in
      let (found, same, good) = select_candidate-Selects repodata all in
      (all, rw (accepted_eq o found (sym h ∙ same)) good)
    where
      start :
          (need (conda.parse_name update.package_name) invalid_package_name >>= λ n.
          need (conda.parse_version header.runtime_version) invalid_version >>= λ v.
          collect conda (offered conda n platform (v, update.build_number)) repodata >>= λ cs.
          accepted (pop conda (sort conda cs)))
          ≡ (collect conda is_wanted repodata >>= λ cs. accepted (pop conda (sort conda cs)))
      start = rw (named, versioned) refl

      complete :
          (r : Checked (List (SelectedPackage conda)))
          → collect conda is_wanted repodata ≡ r
          → (r >>= λ cs. accepted (pop conda (sort conda cs))) ≡ accepted o
          → All (IsComplete conda is_wanted) repodata
      complete (rejected e) g h = absurd (cc h)
      complete (accepted cs) g h = collect-Complete conda is_wanted repodata cs g
