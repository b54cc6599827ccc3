-- ===== src/Hash.antt =====
-- src/hash.rs. The SHA-256 function itself is a parameter.
use conda_ship.Prelude.{
  ℕ, ◌+◌, ◌-◌, ◌/◌, ◌%◌, ◌<◌, Bool, true, [], ◌∷◌, Text, Bytes, ◌≡◌, ◌&&◌, not, nat_eq, ltb,
  byte_len, all, any, is_ascii_hexdigit, is_ascii_uppercase, if◌then◌else◌, arith, length, refl,
  false, ◌*◌,
}

hex_digit : ℕ → ℕ
hex_digit n = if ltb n 10 then b'0' + n else b'a' + (n - 10)

-- `{:02x}` of each byte.
unfoldable pub hex : Bytes → Text
unfolding hex_digit
hex [] = []
hex (b ∷ bytes) = hex_digit (b / 16) ∷ hex_digit (b % 16) ∷ hex bytes

-- The test of `validate_sha256`: 64 bytes, hexadecimal, in lower case.
unfoldable pub is_sha256 : Text → Bool
is_sha256 value =
    nat_eq (byte_len value) 64
    && (all is_ascii_hexdigit value && not (any is_ascii_uppercase value))

abbrev pub AreBytes : Bytes → Type 0
AreBytes [] = Unit {0}
AreBytes (b ∷ bytes) = (b < 256) × AreBytes bytes

-- `Sha256::digest` gives 32 bytes.
pub record Digest : Type 0 where
  pub sha256 : Bytes → Bytes
  pub sha256_bytes : (b : Bytes) → AreBytes (sha256 b)
  pub length-sha256 : (b : Bytes) → length (sha256 b) ≡ 32

hex_digit_ok :
    (n : ℕ)
    → n < 16
    → (is_ascii_hexdigit (hex_digit n) ≡ true)
      × (is_ascii_uppercase (hex_digit n) ≡ false)
      × (ltb (hex_digit n) 128 ≡ true)
unfolding hex_digit
hex_digit_ok n h = ground arith

hex_lower :
    (bytes : Bytes)
    → AreBytes bytes
    → (all is_ascii_hexdigit (hex bytes) ≡ true) × (any is_ascii_uppercase (hex bytes) ≡ false)
unfolding hex
hex_lower [] h = (refl, refl)
hex_lower (b ∷ bytes) (small, h) =
    let (p, q, _) = hex_digit_ok (b / 16) (omega arith) in
    let (p', q', _) = hex_digit_ok (b % 16) (omega arith) in
    let (r, t) = hex_lower bytes h in (rw (p, p', r), rw (q, q', t))

byte_len-ascii : (c : ℕ) (s : Text) → ltb c 128 ≡ true → byte_len (c ∷ s) ≡ 1 + byte_len s
unfolding byte_len
byte_len-ascii c s h = rw h

byte_len-hex : (bytes : Bytes) → AreBytes bytes → byte_len (hex bytes) ≡ 2 * length bytes
unfolding hex byte_len
byte_len-hex [] h = omega arith
byte_len-hex (b ∷ bytes) (small, h) = omega (
  arith,
  byte_len-ascii (hex_digit (b / 16)) (hex_digit (b % 16) ∷ hex bytes)
      (hex_digit_ok (b / 16) (omega arith)).2,
  byte_len-ascii (hex_digit (b % 16)) (hex bytes) (hex_digit_ok (b % 16) (omega arith)).2,
  byte_len-hex bytes h,
)

-- What the program computes for a file passes its own test of digests, for a hash of 32 bytes.
pub is_sha256-hex : (d : Digest) (b : Bytes) → is_sha256 (hex (d.sha256 b)) ≡ true
unfolding is_sha256
is_sha256-hex d b =
    let (lower, no_upper) = hex_lower (d.sha256 b) (d.sha256_bytes b) in
    let size : byte_len (hex (d.sha256 b)) ≡ 64 =
      omega (arith, byte_len-hex (d.sha256 b) (d.sha256_bytes b), d.length-sha256 b) in
    rw (size, lower, no_upper)
