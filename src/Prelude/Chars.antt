-- ===== src/Prelude/Chars.antt =====
-- Text as code points: the Rust `char`s of a `String`. A length in bytes is that of its UTF-8 form.
use Prim.Native.Nat.{ℕ, ◌+◌, ◌-◌}
use Prim.Native.Char.{code}
use Prim.Native.String.{String}
use mathlib.Core.Bool.{Bool, true, false, not, ◌&&◌, ◌||◌}
use mathlib.Core.List.{List, [], ◌∷◌}
use conda_ship.Prelude.Tests.{leb, ltb, nat_eq, if◌then◌else◌, &&-eq-true}
use mathlib.Core.Path.{◌≡◌, refl}
use conda_ship.Prelude.Lists.{all, any, length, drop}
use conda_ship.Prelude.Equality.{◌==◌, list_eq, number_eq}

abbrev pub Text : Type 0
Text = List ℕ

abbrev pub Bytes : Type 0
Bytes = List ℕ

-- The code points of a literal.
abbrev pub codes : String → Text
codes String.[] = []
codes (String.◌∷◌ c s) = code c ∷ codes s

abbrev pub is_empty {ℓ} : {A : Type ℓ} → List A → Bool
is_empty [] = true
is_empty (_ ∷ _) = false

utf8_width : ℕ → ℕ
utf8_width c = if ltb c 0x80 then 1 else if ltb c 0x800 then 2 else if ltb c 0x10000 then 3 else 4

-- `str::len`
unfoldable pub byte_len : Text → ℕ
unfolding utf8_width
byte_len [] = 0
byte_len (c ∷ s) = utf8_width c + byte_len s

abbrev pub in_range : ℕ → ℕ → ℕ → Bool
in_range lo hi c = leb lo c && leb c hi

-- The tests of `char` and `u8`.
abbrev pub is_ascii_digit : ℕ → Bool
is_ascii_digit = in_range b'0' b'9'

abbrev pub is_ascii_uppercase : ℕ → Bool
is_ascii_uppercase = in_range b'A' b'Z'

abbrev pub is_ascii_lowercase : ℕ → Bool
is_ascii_lowercase = in_range b'a' b'z'

abbrev pub is_ascii_alphanumeric : ℕ → Bool
is_ascii_alphanumeric c = is_ascii_digit c || (is_ascii_uppercase c || is_ascii_lowercase c)

abbrev pub is_ascii_hexdigit : ℕ → Bool
is_ascii_hexdigit c = is_ascii_digit c || (in_range b'A' b'F' c || in_range b'a' b'f' c)

abbrev pub to_ascii_uppercase : ℕ → ℕ
to_ascii_uppercase c = if is_ascii_lowercase c then c - 32 else c

abbrev pub to_ascii_lowercase : ℕ → ℕ
to_ascii_lowercase c = if is_ascii_uppercase c then c + 32 else c

-- `char::is_whitespace`, the Unicode property White_Space.
unfoldable pub is_whitespace : ℕ → Bool
is_whitespace c =
    in_range 9 13 c
    || (in_range 0x2000 0x200A c
        || any (nat_eq c)
            (32 ∷ 0x85 ∷ 0xA0 ∷ 0x1680 ∷ 0x2028 ∷ 0x2029 ∷ 0x202F ∷ 0x205F ∷ 0x3000 ∷ []))

-- `text.trim().is_empty()`
unfoldable pub is_blank : Text → Bool
unfolding is_whitespace
is_blank s = all is_whitespace s

-- `str::contains` for one character.
abbrev pub contains : ℕ → Text → Bool
contains c s = any (nat_eq c) s

-- `char::is_control`, the general category Cc.
unfoldable pub is_control : ℕ → Bool
is_control c = ltb c 32 || in_range 127 159 c

-- `str::ends_with`
unfoldable pub ends_with : Text → Text → Bool
ends_with s suffix = drop (length s - length suffix) s == suffix

unfoldable pub onto_first : ℕ → List Text → List Text
onto_first c [] = (c ∷ []) ∷ []
onto_first c (part ∷ rest) = (c ∷ part) ∷ rest

-- `split`, at every character of a kind.
unfoldable pub split_on : (ℕ → Bool) → Text → List Text
unfolding onto_first
split_on sep [] = [] ∷ []
split_on sep (c ∷ s) = let rest = split_on sep s in if sep c then [] ∷ rest else onto_first c rest

pub split_on-whole :
    (sep : ℕ → Bool) (s : Text) → all (λ c. not (sep c)) s ≡ true → split_on sep s ≡ s ∷ []
unfolding split_on
split_on-whole sep [] h = refl
split_on-whole sep (c ∷ s) h =
    let (now, later) = &&-eq-true {a = not (sep c)} {b = all (λ c. not (sep c)) s} h in
    rw (not_true (sep c) now, split_on-whole sep s later) refl
  where
    not_true : (b : Bool) → not b ≡ true → b ≡ false
    not_true false h = refl
    not_true true h = absurd (cc h)
