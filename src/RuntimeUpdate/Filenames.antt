-- ===== src/RuntimeUpdate/Filenames.antt =====
-- The file names of packages that src/runtime_update.rs accepts, spelled out.
use conda_ship.Prelude.{
  ℕ, ◌≤◌, ◌<◌, ◌-◌, Bool, true, false, not, ◌||◌, [], ◌∷◌, ◌++◌, Text, codes, any, contains,
  is_control, ends_with, is_empty, length, take, drop, drop-append, length-append, nat_eq, list_eq,
  number_eq, ◌≡◌, ◌≢◌, ◌↔◌, ◌⊎◌, refl, sym, ap, ◌∙◌, arith, ==-eq, ==-refl,
}
use conda_ship.Fs.Failure.{invalid_filename}
use conda_ship.Fs.Checked.{accepted, require, require_accepted}
use conda_ship.RuntimeUpdate.Select.{validate_package_filename}

-- Neither a separator nor a control character.
abbrev pub IsFileChar : ℕ → Type 0
IsFileChar c = (c ≢ b'/') × (c ≢ b'\\') × (32 ≤ c) × ((c < 127) ⊎ (159 < c))

abbrev pub EachIsFileChar : Text → Type 0
EachIsFileChar [] = Unit {0}
EachIsFileChar (c ∷ s) = IsFileChar c × EachIsFileChar s

-- The name of a `.conda` archive in one directory.
pub record IsArchiveName (name : Text) : Type 0 where
  pub stem : Text
  pub spelled : name ≡ stem ++ codes ".conda"
  pub plain : EachIsFileChar name

file_char : (c : ℕ) → ((nat_eq b'/' c || (nat_eq b'\\' c || is_control c)) ≡ false) ↔ IsFileChar c
unfolding is_control
file_char c = (λ h. ground arith, λ h. ground arith)

neither3 : (a b c : Bool) → (a || (b || c)) ≡ false → (a ≡ false) × (b ≡ false) × (c ≡ false)
neither3 a b c h = ground arith

apart3 :
    (a b c x y z : Bool)
    → ((a || x) || ((b || y) || (c || z))) ≡ false
    → ((a || (b || c)) ≡ false) × ((x || (y || z)) ≡ false)
apart3 a b c x y z h = ground arith

together3 :
    (a b c x y z : Bool)
    → (a || (b || c)) ≡ false
    → (x || (y || z)) ≡ false
    → ((a || x) || ((b || y) || (c || z))) ≡ false
together3 a b c x y z h k = ground arith

file_chars :
    (s : Text)
    → ((contains b'/' s || (contains b'\\' s || any is_control s)) ≡ false) ↔ EachIsFileChar s
file_chars [] = (λ h. tt, λ h. refl)
file_chars (c ∷ s) =
    let (to, from) = file_char c in
    let (to_rest, from_rest) = file_chars s in
    (
      λ h.
          let (now, later) =
            apart3 (nat_eq b'/' c) (nat_eq b'\\' c) (is_control c) (contains b'/' s)
              (contains b'\\' s) (any is_control s) h in
          (to now, to_rest later),
      λ (now, later).
          together3 (nat_eq b'/' c) (nat_eq b'\\' c) (is_control c) (contains b'/' s)
            (contains b'\\' s) (any is_control s) (from now) (from_rest later),
    )

take-drop : (n : ℕ) (s : Text) → take n s ++ drop n s ≡ s
take-drop Prim.Native.Nat.zero s = refl
take-drop (Prim.Native.Nat.suc n) [] = refl
take-drop (Prim.Native.Nat.suc n) (c ∷ s) = ap (λ t. c ∷ t) (take-drop n s)

ends_spelled :
    (s suffix : Text) → ends_with s suffix ≡ true → s ≡ take (length s - length suffix) s ++ suffix
unfolding ends_with
ends_spelled s suffix h =
    sym (take-drop (length s - length suffix) s)
    ∙ ap (λ t. take (length s - length suffix) s ++ t) (==-eq _ suffix h)

ends_append : (stem suffix : Text) → ends_with (stem ++ suffix) suffix ≡ true
unfolding ends_with
ends_append stem suffix =
    let n : length (stem ++ suffix) - length suffix ≡ length stem =
      omega (arith, length-append stem suffix) in
    rw (n, drop-append stem suffix) (==-refl suffix)

tests_passed : (a b x : Bool) → not (a || (not b || x)) ≡ true → (b ≡ true) × (x ≡ false)
tests_passed a b x h = ground arith

not_empty : (stem : Text) → is_empty (stem ++ codes ".conda") ≡ false
not_empty [] = refl
not_empty (c ∷ stem) = refl

passed :
    (a b x : Bool)
    → a ≡ false
    → b ≡ true
    → x ≡ false
    → require (not (a || (not b || x))) invalid_filename ≡ accepted tt
passed a b x h k l = rw (h, k, l) refl

-- The names that are accepted are those spelled out.
pub validate_package_filename-IsArchiveName :
    (name : Text) → (validate_package_filename name ≡ accepted tt) ↔ IsArchiveName name
unfolding validate_package_filename
validate_package_filename-IsArchiveName name = (checked, accept)
  where
    checked : validate_package_filename name ≡ accepted tt → IsArchiveName name
    checked h =
        let (ends, chars) =
          tests_passed (is_empty name) (ends_with name (codes ".conda"))
            (contains b'/' name || (contains b'\\' name || any is_control name))
            (require_accepted _ invalid_filename h) in
        record {
          stem = take (length name - length (codes ".conda")) name;
          spelled = ends_spelled name (codes ".conda") ends;
          plain = (file_chars name).0 chars;
        }

    accept : IsArchiveName name → validate_package_filename name ≡ accepted tt
    accept k =
        let ends : ends_with name (codes ".conda") ≡ true =
          ap (λ n. ends_with n (codes ".conda")) k.spelled ∙ ends_append k.stem (codes ".conda") in
        let filled : is_empty name ≡ false = ap is_empty k.spelled ∙ not_empty k.stem in
        passed (is_empty name) (ends_with name (codes ".conda"))
          (contains b'/' name || (contains b'\\' name || any is_control name)) filled ends
          ((file_chars name).1 k.plain)
