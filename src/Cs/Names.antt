-- ===== src/Cs/Names.antt =====
-- The names of artifacts, installers and installations that cs accepts: src/bin/cs/artifact.rs.
use conda_ship.Prelude.{
  ℕ, Bool, true, false, not, ◌||◌, [], ◌∷◌, Text, codes, all, nat_eq, is_empty,
  is_ascii_alphanumeric, ◌==◌, list_eq, number_eq, ◌≡◌, ◌↔◌, refl, sym, ◌∙◌, arith, &&-eq-true,
}
use conda_ship.Fs.Failure.{empty_name, invalid_start, invalid_character, dotted_name}
use conda_ship.Fs.Checked.{Checked, accepted, ◌>>◌, require, require_passed, require_accepted}
use conda_ship.Fleet.Names.{is_name_char, validate_safe_name}
use conda_ship.Fleet.Paths.{IsTested, not_dotted, validate_safe_name-IsTested}

abbrev pub is_component_char : ℕ → Bool
is_component_char c = is_ascii_alphanumeric c || (nat_eq c b'.' || (nat_eq c b'_' || nat_eq c b'-'))

abbrev pub starts_alphanumeric : Text → Bool
starts_alphanumeric [] = false
starts_alphanumeric (c ∷ rest) = is_ascii_alphanumeric c

unfoldable pub validate_artifact_component : Text → Checked (Unit {0})
validate_artifact_component value = do
  require (not (is_empty value)) empty_name
  require (not ((value == codes ".") || (value == codes ".."))) dotted_name
  require (starts_alphanumeric value) invalid_start
  require (all is_component_char value) invalid_character

same_char : (c : ℕ) → is_component_char c ≡ is_name_char c
same_char c = ground arith

same_chars : (s : Text) → all is_component_char s ≡ all is_name_char s
same_chars [] = refl
same_chars (c ∷ s) = rw (same_char c, same_chars s) refl

component-IsTested :
    (value : Text) → validate_artifact_component value ≡ accepted tt → IsTested value
unfolding validate_artifact_component
component-IsTested [] h = absurd (cc h)
component-IsTested (c ∷ s) h =
    let (_, g) = require_passed (not (is_empty (c ∷ s))) empty_name _ h in
    let (_, k) =
      require_passed (not ((c ∷ s == codes ".") || (c ∷ s == codes ".."))) dotted_name _ g in
    let (starts, l) = require_passed (is_ascii_alphanumeric c) invalid_start _ k in
    let (_, rest) = &&-eq-true {a = is_component_char c} (require_accepted _ invalid_character l) in
    record {
      first = c;
      rest = s;
      spelled = refl;
      starts = starts;
      goes_on = sym (same_chars s) ∙ rest;
    }

spelled_out :
    (c : ℕ) (s : Text)
    → is_ascii_alphanumeric c ≡ true
    → all is_name_char s ≡ true
    → validate_artifact_component (c ∷ s) ≡ accepted tt
unfolding validate_artifact_component
spelled_out c s h k = let (dot, dots) = not_dotted c s h in rw (dot, dots, h, same_chars s, k) refl

accepts-IsTested : (value : Text) → IsTested value → validate_artifact_component value ≡ accepted tt
accepts-IsTested value k = rw k.spelled (spelled_out k.first k.rest k.starts k.goes_on)

-- The names that cs accepts for artifacts, installers and installations are those that a fleet
-- accepts for its runtimes.
pub validate_artifact_component-validate_safe_name :
    (value : Text)
    → (validate_artifact_component value ≡ accepted tt) ↔ (validate_safe_name value ≡ accepted tt)
validate_artifact_component-validate_safe_name value =
    let (safe, accept) = validate_safe_name-IsTested value in
    (λ h. accept (component-IsTested value h), λ h. accepts-IsTested value (safe h))
