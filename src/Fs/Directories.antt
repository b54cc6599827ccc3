-- ===== src/Fs/Directories.antt =====
-- `std::fs::create_dir_all`, which makes the directories that lead to a path.
use conda_ship.Prelude.{
  ℕ, zero, suc, ◌+◌, ◌-◌, ◌≤◌, ◌<◌, Bool, true, false, ◌||◌, List, [], ◌∷◌, Text, length, drop,
  is_empty, ◌≡◌, ◌⊎◌, inl, inr, refl, sym, ap, ◌∙◌, arith, ◌==◌, ==-eq, list_eq, number_eq,
  Bool-cases,
}
use conda_ship.Fs.FilePath.{FilePath, path_eq}
use conda_ship.Fs.Failure.{not_directory}
use conda_ship.Fs.Calls.{
  Files, Node, missing, directory, file, link, M, syscall, Answer, done, refused, put, put_self,
  follow,
}
use conda_ship.Fs.Triple.{Runs, syscall-Runs}

abbrev pub at : Bool → List Text → FilePath
at rooted parts = record { rooted = rooted; parts = parts }

abbrev pub make_directory : FilePath → Node → Files → Files
make_directory p missing s = put p directory s
make_directory p _ s = s

-- The missing directories are made, the outermost one first.
unfoldable pub made : Bool → List Text → Files → Files
made rooted [] s = s
made rooted (name ∷ rest) s =
    let outer = made rooted rest s in
    make_directory (at rooted (name ∷ rest)) (outer (at rooted (name ∷ rest))) outer

-- Neither a directory, nor a link to one, nor missing.
abbrev is_obstacle : Files → Node → Bool
is_obstacle s missing = false
is_obstacle s directory = false
is_obstacle s (file b) = true
is_obstacle s (link q) = elim (s q) [
  | missing ↦ true
  | directory ↦ false
  | file b ↦ true
  | link r ↦ true
]

unfoldable pub obstructed : Bool → List Text → Files → Bool
obstructed rooted [] s = false
obstructed rooted (name ∷ rest) s =
    let further = obstructed rooted rest s in is_obstacle s (s (at rooted (name ∷ rest))) || further

-- Where the path leads to a directory, nothing is made.
abbrev unless_there : Node → Files → Files → Files
unless_there directory s t = s
unless_there _ s t = t

abbrev answer : Node → Bool → Files → Files → Answer (Unit {0})
answer directory _ s t = done tt s
answer _ true s t = refused not_directory
answer _ false s t = done tt t

-- The directories, but for the innermost `k`.
unfoldable pub partly_made : ℕ → FilePath → Files → Files
unfolding made
partly_made k p s = unless_there (follow s p) s (made p.rooted (drop k p.parts) s)

unfoldable pub create_dir_all : FilePath → M (Unit {0})
unfolding partly_made made obstructed
create_dir_all p =
    syscall (λ n s. partly_made (length p.parts - n) p s)
      (λ s. answer (follow s p) (obstructed p.rooted p.parts s) s (made p.rooted p.parts s))

-- The path itself, or a directory above it.
abbrev pub IsOnTheWay : FilePath → FilePath → Type 0
IsOnTheWay q p = (k : ℕ) × (q ≡ at p.rooted (drop k p.parts))

-- Directories that lead to the path have been made where nothing was, and all else is as before.
abbrev pub OnlyMakes : FilePath → Files → Files → Type 0
OnlyMakes p s t =
    (q : FilePath) → (t q ≡ s q) ⊎ ((s q ≡ missing) × (t q ≡ directory) × IsOnTheWay q p)

module _ (rooted : Bool) (name : Text) (rest : List Text) (s t : Files) where
  abbrev here : FilePath
  here = at rooted (name ∷ rest)

  -- One directory more.
  further :
      OnlyMakes (at rooted rest) s t
      → (n : Node) → t here ≡ n
      → OnlyMakes here s (make_directory here n t)
  further h n e q = sort n e (Bool-cases (q == here))
    where
      outer :
          (u : Files)
          → u q ≡ t q
          → (u q ≡ s q) ⊎ ((s q ≡ missing) × (u q ≡ directory) × IsOnTheWay q here)
      outer u same = elim (h q) [
        | inl e ↦ inl (same ∙ e)
        | inr (absent, there, (k, way)) ↦ inr (absent, same ∙ there, (suc k, way))
      ]

      was_missing : q ≡ here → t here ≡ missing → s q ≡ missing
      was_missing same e = elim (h here) [
        | inl f ↦ rw same (sym f ∙ e)
        | inr (absent, _, _) ↦ rw same absent
      ]

      sort :
          (n : Node)
          → t here ≡ n
          → ((q == here) ≡ true) ⊎ ((q == here) ≡ false)
          → (make_directory here n t q ≡ s q)
            ⊎ ((s q ≡ missing) × (make_directory here n t q ≡ directory) × IsOnTheWay q here)
      sort missing e (inl same) =
          inr (was_missing (==-eq q here same) e, rw same refl, (0, ==-eq q here same))
      sort missing e (inr other) = outer (put here directory t) (rw other refl)
      sort directory e _ = outer t refl
      sort (file b) e _ = outer t refl
      sort (link r) e _ = outer t refl

made-OnlyMakes :
    (rooted : Bool) (parts : List Text) (s : Files)
    → OnlyMakes (at rooted parts) s (made rooted parts s)
unfolding made
made-OnlyMakes rooted [] s q = inl refl
made-OnlyMakes rooted (name ∷ rest) s q =
    further rooted name rest s (made rooted rest s) (made-OnlyMakes rooted rest s) _ refl q

drop_shorter : (k : ℕ) (parts : List Text) → length (drop k parts) ≤ length parts
drop_shorter zero parts = omega arith
drop_shorter (suc k) [] = omega arith
drop_shorter (suc k) (name ∷ rest) = omega (arith, drop_shorter k rest)

drop_none : (k : ℕ) → drop {A = Text} k [] ≡ []
drop_none zero = refl
drop_none (suc k) = refl

drop-drop : (j k : ℕ) (parts : List Text) → drop j (drop k parts) ≡ drop (k + j) parts
drop-drop j zero parts = ap (λ i. drop i parts) (omega arith)
drop-drop j (suc k) [] = drop_none j ∙ sym (drop_none (suc k + j))
drop-drop j (suc k) (name ∷ rest) =
    let count : suc (k + j) ≡ suc k + j = omega arith in
    drop-drop j k rest ∙ ap (λ i. drop i (name ∷ rest)) count

-- What is below the path stays.
pub below_stays :
    {p : FilePath} {s t : Files} (q : FilePath)
    → OnlyMakes p s t
    → length p.parts < length q.parts
    → t q ≡ s q
below_stays {p} q h below = elim (h q) [
  | inl e ↦ e
  | inr (_, _, (k, way)) ↦
      absurd (omega (arith, ap (λ r. length r.parts) way, drop_shorter k p.parts))
]

pub partly_made-OnlyMakes : (k : ℕ) (p : FilePath) (s : Files) → OnlyMakes p s (partly_made k p s)
unfolding partly_made
partly_made-OnlyMakes k p s q = sort (follow s p)
  where
    found :
        (made p.rooted (drop k p.parts) s q ≡ s q)
          ⊎ ((s q ≡ missing)
              × (made p.rooted (drop k p.parts) s q ≡ directory)
              × IsOnTheWay q (at p.rooted (drop k p.parts)))
        → (made p.rooted (drop k p.parts) s q ≡ s q)
          ⊎ ((s q ≡ missing) × (made p.rooted (drop k p.parts) s q ≡ directory) × IsOnTheWay q p)
    found (inl e) = inl e
    found (inr (absent, there, (j, way))) =
        inr (absent, there, (k + j, way ∙ ap (at p.rooted) (drop-drop j k p.parts)))

    sort :
        (n : Node)
        → (unless_there n s (made p.rooted (drop k p.parts) s) q ≡ s q)
          ⊎ ((s q ≡ missing)
              × (unless_there n s (made p.rooted (drop k p.parts) s) q ≡ directory)
              × IsOnTheWay q p)
    sort directory = inl refl
    sort missing = found (made-OnlyMakes p.rooted (drop k p.parts) s q)
    sort (file b) = found (made-OnlyMakes p.rooted (drop k p.parts) s q)
    sort (link r) = found (made-OnlyMakes p.rooted (drop k p.parts) s q)

-- A directory, or a path at which nothing stands and to which directories can be made.
abbrev pub CanBeMade : FilePath → Files → Type 0
CanBeMade p s =
    (s p ≡ directory)
    ⊎ ((s p ≡ missing) × (is_empty p.parts ≡ false) × (obstructed p.rooted p.parts s ≡ false))

pub made_there : (p : FilePath) (s : Files) → CanBeMade p s → partly_made 0 p s p ≡ directory
unfolding partly_made made
made_there p s (inl e) = rw (e, follow) e
made_there p s (inr (absent, deep, _)) = rw (absent, follow) (sort p.parts refl deep)
  where
    sort :
        (parts : List Text)
        → p.parts ≡ parts
        → is_empty parts ≡ false
        → made p.rooted parts s p ≡ directory
    sort [] e deep = absurd (cc deep)
    sort (name ∷ rest) e deep =
        let same : at p.rooted (name ∷ rest) ≡ p = ap (at p.rooted) (sym e) in
        let still : made p.rooted rest s (at p.rooted (name ∷ rest)) ≡ missing =
          below_stays (at p.rooted (name ∷ rest)) (made-OnlyMakes p.rooted rest s) (omega arith)
          ∙ (ap s same ∙ absent) in
        ap (made p.rooted (name ∷ rest) s) (sym same)
        ∙ rw (still, make_directory)
            (put_self directory (made p.rooted rest s) (at p.rooted (name ∷ rest)))

module _ {quiet : Bool} {s : Files} {Q : Unit {0} → Files → Type 0} {E : Files → Type 0} where
  pub create_dir_all-Runs :
      (p : FilePath)
      → CanBeMade p s
      → ((k : ℕ) → E (partly_made k p s))
      → Q tt (partly_made 0 p s)
      → Runs quiet s (create_dir_all p) Q E
  unfolding create_dir_all partly_made
  create_dir_all-Runs p can h q = syscall-Runs _ _ tt _ (sort can) (λ n. h (length p.parts - n)) q
    where
      sort :
          CanBeMade p s
          → answer (follow s p) (obstructed p.rooted p.parts s) s (made p.rooted p.parts s)
            ≡ done tt (unless_there (follow s p) s (made p.rooted p.parts s))
      sort (inl e) = rw (e, follow) refl
      sort (inr (absent, _, free)) = rw (absent, follow, free) refl
