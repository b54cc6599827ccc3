-- ===== src/Commands/Executable.antt =====
-- Where an accepted delegate of src/exec.rs stands.
use conda_ship.Prelude.{
  ℕ, Bool, true, false, not, ◌&&◌, ◌||◌, [], ◌∷◌, Text, codes, all, any, is_empty, contains, nat_eq,
  is_control, ◌==◌, list_eq, number_eq, ◌<◌, ◌+◌, ◌≡◌, ◌≢◌, ◌∙◌, refl, sym, ap, arith, length,
}
use conda_ship.Fs.FilePath.{FilePath, join, join_text_one}
use conda_ship.Fs.Failure.{Failure, invalid_delegate}
use conda_ship.Fs.Checked.{accepted, require}
use conda_ship.Commands.Delegate.{executable_in_prefix, validate_executable_name}

required : (b : Bool) (e : Failure) → require b e ≡ accepted tt → b ≡ true
required true e h = refl
required false e h = absurd (cc h)

none_of :
    (a b c d e f : Bool)
    → not (a || (b || (c || (d || (e || f))))) ≡ true
    → (a ≡ false) × (b ≡ false) × (d ≡ false)
none_of false false c false e f h = (refl, refl, refl)
none_of false false false true e f h = absurd (cc h)
none_of false false true true e f h = absurd (cc h)
none_of false true c d e f h = absurd (cc h)
none_of true b c d e f h = absurd (cc h)

slash_order : (c : ℕ) → nat_eq c b'/' ≡ nat_eq b'/' c
slash_order c = ground arith

no_slash : (s : Text) → contains b'/' s ≡ false → all (λ c. not (nat_eq c b'/')) s ≡ true
no_slash [] h = refl
no_slash (c ∷ s) h = rw (slash_order c) (sort (nat_eq b'/' c) (no_slash s) h)
  where
    sort :
        (b : Bool)
        → (contains b'/' s ≡ false → all (λ c. not (nat_eq c b'/')) s ≡ true)
        → (b || contains b'/' s) ≡ false
        → (not b && all (λ c. not (nat_eq c b'/')) s) ≡ true
    sort true f k = absurd (cc k)
    sort false f k = f k

abbrev refused_name : Text → Bool
refused_name executable =
    is_empty executable
    || ((executable == codes ".")
        || ((executable == codes "..")
            || (contains b'/' executable
                || (contains b'\\' executable || any is_control executable))))

-- An accepted name is one component below the directory of executables.
pub executable_in_prefix_lem :
    (prefix : FilePath) (executable : Text)
    → validate_executable_name executable ≡ accepted tt
    → executable_in_prefix prefix executable ≡ join (join prefix (codes "bin")) executable
unfolding executable_in_prefix validate_executable_name
executable_in_prefix_lem prefix [] h = absurd (cc h)
executable_in_prefix_lem prefix (c ∷ s) h =
    let (filled, dot, slash) =
      none_of false (c ∷ s == codes ".") (c ∷ s == codes "..") (contains b'/' (c ∷ s))
        (contains b'\\' (c ∷ s)) (any is_control (c ∷ s))
        (required (not (refused_name (c ∷ s))) invalid_delegate h) in
    join_text_one (join prefix (codes "bin")) c s dot (no_slash (c ∷ s) slash)

-- It is none of the files of the prefix itself.
pub executable_in_prefix-ne :
    (prefix : FilePath) (executable name : Text)
    → validate_executable_name executable ≡ accepted tt
    → executable_in_prefix prefix executable ≢ join prefix name
executable_in_prefix-ne prefix executable name h e =
    let same = sym (executable_in_prefix_lem prefix executable h) ∙ e in
    absurd (omega (arith, ap (λ p. length p.parts) same))

pub executable_in_prefix-level :
    (prefix : FilePath) (executable : Text) (p : FilePath)
    → validate_executable_name executable ≡ accepted tt
    → length p.parts ≡ length prefix.parts + 1
    → executable_in_prefix prefix executable ≢ p
executable_in_prefix-level prefix executable p h level e =
    let same = sym (executable_in_prefix_lem prefix executable h) ∙ e in
    absurd (omega (arith, level, ap (λ q. length q.parts) same))

-- A directory is not one of its entries.
pub above-ne : (p q : FilePath) → length p.parts < length q.parts → p ≢ q
above-ne p q below e = absurd (omega (arith, below, ap (λ r. length r.parts) e))

pub join-above : (p : FilePath) (name : Text) → p ≢ join p name
join-above p name e = absurd (omega (arith, ap (λ q. length q.parts) e))
