-- ===== src/Fleet/Paths.antt =====
-- Where a runtime of a fleet lives: the prefix and the metadata file of src/fleet.rs.
use conda_ship.Prelude.{
  ℕ, ◌≤◌, ◌⊎◌, Bool, true, false, not, ◌||◌, some, [], ◌∷◌, ◌++◌, Text, codes, all, nat_eq, ◌==◌,
  list_eq, number_eq, list_beq, ◌≡◌, ◌≢◌, ◌↔◌, refl, sym, ◌∙◌, arith, is_ascii_alphanumeric,
  &&-eq-true, ==-ne,
}
use conda_ship.Fs.FilePath.{FilePath, join, join_text, parent, file_name, join_text_one}
use conda_ship.Fs.Failure.{invalid_start, invalid_character, dotted_name}
use conda_ship.Fs.Checked.{Checked, accepted, rejected, ◌>>◌, require, accepted_eq}
use conda_ship.Fleet.Names.{is_name_char, validate_safe_name, prefix_for}

-- The tests, on the first character and on the others.
pub record IsTested (value : Text) : Type 0 where
  pub first : ℕ
  pub rest : Text
  pub spelled : value ≡ first ∷ rest
  pub starts : is_ascii_alphanumeric first ≡ true
  pub goes_on : all is_name_char rest ≡ true

alphanumeric_char : (c : ℕ) → is_ascii_alphanumeric c ≡ true → nat_eq c b'/' ≡ false
alphanumeric_char c h = ground arith

alphanumeric_dot : (c : ℕ) → is_ascii_alphanumeric c ≡ true → c ≢ b'.'
alphanumeric_dot c h = ground arith

name_char : (c : ℕ) → is_name_char c ≡ true → nat_eq c b'/' ≡ false
name_char c h = ground arith

pub not_dotted :
    (c : ℕ) (s : Text)
    → is_ascii_alphanumeric c ≡ true
    → ((c ∷ s == codes ".") ≡ false) × ((c ∷ s == codes "..") ≡ false)
not_dotted c s h = (
  ==-ne (c ∷ s) (codes ".") (λ e. alphanumeric_dot c h (cc e)),
  ==-ne (c ∷ s) (codes "..") (λ e. alphanumeric_dot c h (cc e)),
)

accept_tested :
    (c : ℕ) (s : Text)
    → is_ascii_alphanumeric c ≡ true
    → all is_name_char s ≡ true
    → validate_safe_name (c ∷ s) ≡ accepted tt
unfolding validate_safe_name
accept_tested c s h k = let (dot, dots) = not_dotted c s h in rw (h, k, dot, dots) refl

-- The tests together.
pub validate_safe_name-IsTested :
    (value : Text) → (validate_safe_name value ≡ accepted tt) ↔ IsTested value
unfolding validate_safe_name
validate_safe_name-IsTested value = (safe value, λ k. spell k)
  where
    spell : IsTested value → validate_safe_name value ≡ accepted tt
    spell k = rw k.spelled (accept_tested k.first k.rest k.starts k.goes_on)

    tests :
        (c : ℕ) (s : Text) (a b d : Bool)
        → is_ascii_alphanumeric c ≡ a
        → all is_name_char s ≡ b
        → (require a invalid_start >> (require b invalid_character >> require d dotted_name))
          ≡ accepted tt
        → IsTested (c ∷ s)
    tests c s false b d e f h = absurd (cc h)
    tests c s true false d e f h = absurd (cc h)
    tests c s true true d e f h = record {
      first = c;
      rest = s;
      spelled = refl;
      starts = e;
      goes_on = f;
    }

    safe : (v : Text) → validate_safe_name v ≡ accepted tt → IsTested v
    safe [] h = absurd (cc h)
    safe (c ∷ s) h = tests c s _ _ (not ((c ∷ s == codes ".") || (c ∷ s == codes ".."))) refl refl h

-- The characters of names, spelled out.
abbrev pub IsLetterOrDigit : ℕ → Type 0
IsLetterOrDigit c =
    ((b'0' ≤ c) × (c ≤ b'9')) ⊎ (((b'A' ≤ c) × (c ≤ b'Z')) ⊎ ((b'a' ≤ c) × (c ≤ b'z')))

abbrev pub IsNameChar : ℕ → Type 0
IsNameChar c = IsLetterOrDigit c ⊎ ((c ≡ b'-') ⊎ ((c ≡ b'_') ⊎ (c ≡ b'.')))

abbrev pub EachIsNameChar : Text → Type 0
EachIsNameChar [] = Unit {0}
EachIsNameChar (c ∷ s) = IsNameChar c × EachIsNameChar s

-- A letter or a digit first, then letters, digits, dashes, underscores and full stops.
pub record IsSafeName (value : Text) : Type 0 where
  pub first : ℕ
  pub rest : Text
  pub spelled : value ≡ first ∷ rest
  pub starts : IsLetterOrDigit first
  pub goes_on : EachIsNameChar rest

letter_or_digit : (c : ℕ) → (is_ascii_alphanumeric c ≡ true) ↔ IsLetterOrDigit c
letter_or_digit c = (λ h. ground arith, λ h. ground arith)

each_char_spelled : (c : ℕ) → (is_name_char c ≡ true) ↔ IsNameChar c
each_char_spelled c = (λ h. ground arith, λ h. ground arith)

each_spelled : (s : Text) → (all is_name_char s ≡ true) ↔ EachIsNameChar s
each_spelled [] = (λ h. tt, λ h. refl)
each_spelled (c ∷ s) =
    let (to, from) = each_char_spelled c in
    let (to_rest, from_rest) = each_spelled s in
    (
      λ h.
          let (now, later) = &&-eq-true {a = is_name_char c} {b = all is_name_char s} h in
          (to now, to_rest later),
      λ (now, later). rw (from now, from_rest later) refl,
    )

-- The names that are accepted are those of a letter or a digit, followed by letters, digits,
-- dashes, underscores and full stops, all of ASCII.
pub validate_safe_name-IsSafeName :
    (value : Text) → (validate_safe_name value ≡ accepted tt) ↔ IsSafeName value
validate_safe_name-IsSafeName value =
    let (tested, accept) = validate_safe_name-IsTested value in
    (
      λ h.
          let k = tested h in
          record {
            first = k.first;
            rest = k.rest;
            spelled = k.spelled;
            starts = (letter_or_digit k.first).0 k.starts;
            goes_on = (each_spelled k.rest).0 k.goes_on;
          },
      λ k. accept (record {
        first = k.first;
        rest = k.rest;
        spelled = k.spelled;
        starts = (letter_or_digit k.first).1 k.starts;
        goes_on = (each_spelled k.rest).1 k.goes_on;
      }),
    )

no_slash : (s : Text) → all is_name_char s ≡ true → all (λ c. not (nat_eq c b'/')) s ≡ true
no_slash [] h = refl
no_slash (c ∷ s) h =
    let (now, later) = &&-eq-true {a = is_name_char c} {b = all is_name_char s} h in
    rw (name_char c now, no_slash s later) refl

pub join_text_safe : (root : FilePath) (id : Text) → IsTested id → join_text root id ≡ join root id
join_text_safe root id k = rw k.spelled (join_spelled k.first k.rest k.starts k.goes_on)
  where
    join_spelled :
        (c : ℕ) (s : Text)
        → is_ascii_alphanumeric c ≡ true
        → all is_name_char s ≡ true
        → join_text root (c ∷ s) ≡ join root (c ∷ s)
    join_spelled c s h k =
        join_text_one root c s (not_dotted c s h).0 (rw (alphanumeric_char c h, no_slash s k) refl)

append-all :
    (xs ys : Text)
    → all (λ c. not (nat_eq c b'/')) xs ≡ true
    → all (λ c. not (nat_eq c b'/')) ys ≡ true
    → all (λ c. not (nat_eq c b'/')) (xs ++ ys) ≡ true
append-all [] ys h k = k
append-all (c ∷ xs) ys h k =
    let (now, later) =
      &&-eq-true {a = not (nat_eq c b'/')} {b = all (λ x. not (nat_eq x b'/')) xs} h in
    rw (now, append-all xs ys later k) refl

-- The name of the metadata file, made of a tested id, is one component.
pub plain_json :
    (root : FilePath) (id : Text)
    → IsTested id
    → join_text root (b'.' ∷ (id ++ codes ".json")) ≡ join root (b'.' ∷ (id ++ codes ".json"))
unfolding list_beq
plain_json root id k =
    join_text_one root b'.' (id ++ codes ".json") (rw k.spelled refl)
      (append-all id (codes ".json") (rw k.spelled (whole k.first k.rest k.starts k.goes_on)) refl)
  where
    whole :
        (c : ℕ) (s : Text)
        → is_ascii_alphanumeric c ≡ true
        → all is_name_char s ≡ true
        → all (λ x. not (nat_eq x b'/')) (c ∷ s) ≡ true
    whole c s h k = rw (alphanumeric_char c h, no_slash s k) refl

-- If an id is given a prefix, that prefix is the entry of this name in the root of the fleet: its
-- parent is the root and its name is the id, whatever the text of the id.
pub prefix_for_below :
    (install_root p : FilePath) (id : Text)
    → prefix_for install_root id ≡ accepted p
    → (p ≡ join install_root id) × (parent p ≡ some install_root) × (file_name p ≡ some id)
unfolding prefix_for list_beq
prefix_for_below root p id h = sort (validate_safe_name id) refl h
  where
    below :
        (k : IsTested id)
        → (parent (join root id) ≡ some root) × (file_name (join root id) ≡ some id)
    below k = (refl, rw k.spelled (rw (not_dotted k.first k.rest k.starts).1 refl))

    sort :
        (v : Checked (Unit {0}))
        → validate_safe_name id ≡ v
        → (v >> accepted (join_text root id)) ≡ accepted p
        → (p ≡ join root id) × (parent p ≡ some root) × (file_name p ≡ some id)
    sort (rejected x) e h = absurd (cc h)
    sort (accepted _) e h =
        let k = (validate_safe_name-IsTested id).0 e in
        let same = sym (accepted_eq _ _ h) ∙ join_text_safe root id k in
        let (above, named) = below k in (same, rw same above, rw same named)
