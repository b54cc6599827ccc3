-- ===== src/Cs/PlainNames.antt =====
-- The names that src/bin/cs/update_package.rs accepts for files, and the paths of payloads made of
-- them.
use conda_ship.Prelude.{
  ℕ, List, Bool, true, false, not, ◌||◌, [], ◌∷◌, ◌++◌, Text, codes, contains, any, all, is_empty,
  length, length-append, map, nat_eq, split_on, onto_first, split_on-whole, list_beq, ◌==◌, list_eq,
  number_eq, ◌≡◌, refl, ap, arith, ==-ne,
}
use conda_ship.Fs.Checked.{accepted, require_accepted}
use conda_ship.RuntimeUpdate.Archive.{
  normal, path_components, component, further_components, leading_component, relative_components,
  starts_with_slash,
}
use conda_ship.Cs.ArtifactInfo.{is_one_name, validate_plain_filename}
use conda_ship.Cs.UpdatePackage.{payload_name}

pub record IsPlain (t : Text) : Type 0 where
  pub filled : is_empty t ≡ false
  pub no_slash : contains b'/' t ≡ false
  pub no_dot : (t == codes ".") ≡ false
  pub no_dots : (t == codes "..") ≡ false

neither : (a b : Bool) → (a || b) ≡ false → (a ≡ false) × (b ≡ false)
neither a b h = ground arith

any_none : (p : ℕ → Bool) (s : Text) → any p s ≡ false → all (λ c. not (p c)) s ≡ true
any_none p [] h = refl
any_none p (c ∷ s) h =
    let (now, later) = neither (p c) (any p s) h in rw (now, any_none p s later) refl

first_segment : (c : ℕ) (s : Text) → nat_eq b'/' c ≡ false → starts_with_slash (c ∷ s) ≡ false
unfolding starts_with_slash
first_segment c s h = h

-- One segment that is not empty is one component.
pub plain_components : (t : Text) → IsPlain t → path_components t ≡ normal t ∷ []
unfolding path_components relative_components leading_component further_components component
plain_components [] i = absurd (cc i.filled)
plain_components (c ∷ s) i =
    let (first, _) = neither (nat_eq b'/' c) (any (nat_eq b'/') s) i.no_slash in
    let split = split_on-whole (nat_eq b'/') (c ∷ s) (any_none (nat_eq b'/') (c ∷ s) i.no_slash) in
    rw (split, first_segment c s first, i.no_dot, i.no_dots) refl

-- Neither of the two names that lead elsewhere is one ordinary component.
one_name_apart :
    (t u : Text)
    → is_one_name (path_components t) ≡ true
    → is_one_name (path_components u) ≡ false
    → (t == u) ≡ false
one_name_apart t u h k =
    ==-ne t u (λ same. absurd (cc (h, k, ap (λ x. is_one_name (path_components x)) same)))

dot_apart : is_one_name (path_components (codes ".")) ≡ false
unfolding path_components relative_components leading_component further_components component
    starts_with_slash split_on onto_first list_beq
dot_apart = refl

dots_apart : is_one_name (path_components (codes "..")) ≡ false
unfolding path_components relative_components leading_component further_components component
    starts_with_slash split_on onto_first list_beq
dots_apart = refl

tests_passed :
    (a b c d : Bool)
    → not (a || (b || (c || not d))) ≡ true
    → (a ≡ false) × (b ≡ false) × (d ≡ true)
tests_passed a b c d h = ground arith

pub validate_plain_filename-IsPlain :
    (t : Text) → validate_plain_filename t ≡ accepted tt → IsPlain t
unfolding validate_plain_filename
validate_plain_filename-IsPlain t h =
    let (filled, no_slash, one) =
      tests_passed (is_empty t) (contains b'/' t) (contains b'\\' t)
        (is_one_name (path_components t)) (require_accepted _ _ h) in
    record {
      filled = filled;
      no_slash = no_slash;
      no_dot = one_name_apart t (codes ".") one dot_apart;
      no_dots = one_name_apart t (codes "..") one dots_apart;
    }

any_append :
    (p : ℕ → Bool) (s t : Text) → any p s ≡ false → any p t ≡ false → any p (s ++ t) ≡ false
any_append p [] t h k = k
any_append p (c ∷ s) t h k =
    let (now, later) = neither (p c) (any p s) h in rw (now, any_append p s t later k) refl

exe_IsPlain : (t : Text) → IsPlain t → IsPlain (t ++ codes ".exe")
exe_IsPlain t i = record {
  filled = filled t;
  no_slash = any_append (nat_eq b'/') t (codes ".exe") i.no_slash refl;
  no_dot =
      ==-ne (t ++ codes ".exe") (codes ".")
        (λ h. absurd (omega (arith, ap length h, length-append t (codes ".exe"))));
  no_dots =
      ==-ne (t ++ codes ".exe") (codes "..")
        (λ h. absurd (omega (arith, ap length h, length-append t (codes ".exe"))));
}
  where
    filled : (t : Text) → is_empty (t ++ codes ".exe") ≡ false
    filled [] = refl
    filled (c ∷ s) = refl

-- The components of a payload's path.
unfoldable pub payload_parts : Bool → Text → List Text
payload_parts true name = (name ++ codes ".exe") ∷ []
payload_parts false name = codes "bin" ∷ name ∷ []

pub payload_components :
    (w : Bool) (name : Text)
    → IsPlain name
    → path_components (payload_name w name) ≡ map normal (payload_parts w name)
unfolding payload_parts path_components relative_components leading_component further_components
    component starts_with_slash split_on onto_first list_beq
payload_components true name i = plain_components (name ++ codes ".exe") (exe_IsPlain name i)
payload_components false name i =
    rw
      (
        split_on-whole (nat_eq b'/') name (any_none (nat_eq b'/') name i.no_slash),
        i.filled,
        i.no_dot,
        i.no_dots,
      )
      refl

pub payload_filled : (w : Bool) (name : Text) → is_empty (payload_name w name) ≡ false
payload_filled false name = refl
payload_filled true [] = refl
payload_filled true (c ∷ s) = refl

-- No payload is one of the files in `info`.
pub payload_apart :
    (w : Bool) (name file : Text) → (codes "info" ∷ file ∷ [] == payload_parts w name) ≡ false
unfolding payload_parts list_beq
payload_apart false name file = refl
payload_apart true name file =
    ==-ne (codes "info" ∷ file ∷ []) ((name ++ codes ".exe") ∷ [])
      (λ h. absurd (omega (arith, ap length h)))
