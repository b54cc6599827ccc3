-- ===== src/ExecutableUpdate/Names.antt =====
-- The three paths of an update are different.
use conda_ship.Prelude.{
  ℕ, some, [], ◌∷◌, ◌++◌, Text, codes, take, length, length-append, ◌≡◌, ◌≢◌, refl, ap, sym, ◌∙◌,
  arith,
}
use conda_ship.Fs.FilePath.{FilePath, join, parent, file_name, join-ne}
use conda_ship.ExecutableUpdate.Stamp.{adjacent_name}
use conda_ship.ExecutableUpdate.Setting.{Selection, Places, target_of, candidate_of, backup_of}

last_or : ℕ → Text → ℕ
last_or d [] = d
last_or d (x ∷ xs) = last_or x xs

last_or-append : (d y : ℕ) (xs ys : Text) → last_or d (xs ++ (y ∷ ys)) ≡ last_or y ys
unfolding last_or
last_or-append d y [] ys = refl
last_or-append d y (x ∷ xs) ys = last_or-append x y xs ys

adjacent_end :
    (name digest : Text) (y : ℕ) (ys : Text)
    → last_or 0 (adjacent_name name digest (y ∷ ys)) ≡ last_or y ys
unfolding last_or adjacent_name
adjacent_end name digest y ys =
    last_or-append b'.' b'.' name _ ∙ last_or-append b'-' b'.' (take 16 digest) (y ∷ ys)

new-ne-old :
    (name digest digest' : Text)
    → adjacent_name name digest (codes "new") ≢ adjacent_name name digest' (codes "old")
unfolding last_or
new-ne-old name digest digest' e =
    let same : ◌≡◌ {A = ℕ} 119 100 =
      sym (adjacent_end name digest b'n' (codes "ew"))
      ∙ (ap (last_or 0) e ∙ adjacent_end name digest' b'o' (codes "ld")) in
    absurd (omega arith)

name-ne-adjacent : (name digest suffix : Text) → name ≢ adjacent_name name digest suffix
unfolding adjacent_name
name-ne-adjacent name digest suffix e = absurd (
    omega (
      arith,
      ap length e,
      length-append name (codes ".conda-ship-" ++ (take 16 digest ++ (b'.' ∷ suffix))),
    ))

eq-join :
    (q directory : FilePath) (name : Text)
    → parent q ≡ some directory
    → file_name q ≡ some name
    → q ≡ join directory name
eq-join q directory name above named = ground arith

module _ {prefix : FilePath} {metadata_file : Text} {c : Selection}
    (p : Places prefix metadata_file c) where
  target_lem : target_of c ≡ join p.directory p.name
  target_lem = eq-join (target_of c) p.directory p.name p.above p.named

  pub candidate-ne-target : candidate_of p ≢ target_of c
  candidate-ne-target e =
      join-ne p.directory p.name _ (name-ne-adjacent p.name c.digest (codes "new"))
        (sym target_lem ∙ sym e)

  pub backup-ne-target : backup_of p ≢ target_of c
  backup-ne-target e =
      join-ne p.directory p.name _ (name-ne-adjacent p.name c.installed.sha256 (codes "old"))
        (sym target_lem ∙ sym e)

  pub backup-ne-candidate : backup_of p ≢ candidate_of p
  backup-ne-candidate e =
      join-ne p.directory _ _ (new-ne-old p.name c.digest c.installed.sha256) (sym e)
