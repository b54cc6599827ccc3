-- ===== src/RuntimeData/Footer.antt =====
-- The footer of a stamp: `encode_footer` and `decode_footer` of src/runtime_data.rs.
use conda_ship.Prelude.{
  ℕ, ◌+◌, ◌-◌, ◌^◌, ◌<◌, Option, none, some, ◌++◌, Bytes, codes, length, take, drop, length-append,
  ◌≡◌, ◌∙◌, ap, refl, ◌==◌, list_eq, number_eq, ==-refl, nat_eq, if◌then◌else◌, arith,
}
use conda_ship.RuntimeData.Result.{Result, ok, ◌>>◌, check, unsupported_footer_version}
use conda_ship.RuntimeData.Binary.{
  le_bytes, from_le_bytes, from_le_bytes-le_bytes, length-le_bytes, drop_past, take_front,
}

abbrev pub footer_magic : Bytes
footer_magic = codes "CONDA_SHIP_V0001"

abbrev pub format_version : ℕ
format_version = 1

abbrev pub footer_len : ℕ
footer_len = 100

pub record DecodedFooter : Type 0 where
  pub header_len : ℕ
  pub bundle_len : ℕ
  pub header_sha256 : Bytes
  pub bundle_sha256 : Bytes

unfoldable pub encode_footer : ℕ → ℕ → Bytes → Bytes → Bytes
encode_footer header_len bundle_len header_sha256 bundle_sha256 =
    le_bytes 8 header_len
    ++ (le_bytes 8 bundle_len
        ++ (header_sha256 ++ (bundle_sha256 ++ (le_bytes 4 format_version ++ footer_magic))))

-- `footer[from..to]`
abbrev pub slice : ℕ → ℕ → Bytes → Bytes
slice from to bytes = take (to - from) (drop from bytes)

unfoldable pub decode_footer : Bytes → Result (Option DecodedFooter)
decode_footer footer =
    if slice 84 100 footer == footer_magic
    then (do
      check (nat_eq (from_le_bytes (slice 80 84 footer)) format_version) unsupported_footer_version
      ok (
          some (record {
            header_len = from_le_bytes (slice 0 8 footer);
            bundle_len = from_le_bytes (slice 8 16 footer);
            header_sha256 = slice 16 48 footer;
            bundle_sha256 = slice 48 80 footer;
          })))
    else ok none

-- The two lengths fit in a u64, and the two digests have 32 bytes.
pub record Fits (f : DecodedFooter) : Type 0 where
  pub header_fits : f.header_len < 256 ^ 8
  pub bundle_fits : f.bundle_len < 256 ^ 8
  pub header_digest : length f.header_sha256 ≡ 32
  pub bundle_digest : length f.bundle_sha256 ≡ 32

module _ (f : DecodedFooter) (fits : Fits f) where
  abbrev pub encoded : Bytes
  encoded = encode_footer f.header_len f.bundle_len f.header_sha256 f.bundle_sha256

  abbrev version_on : Bytes
  version_on = le_bytes 4 format_version ++ footer_magic

  abbrev bundle_on : Bytes
  bundle_on = f.bundle_sha256 ++ version_on

  abbrev digests_on : Bytes
  digests_on = f.header_sha256 ++ bundle_on

  at_16 : drop 16 encoded ≡ digests_on
  unfolding encode_footer
  at_16 =
      drop_past 8 8 (le_bytes 8 f.header_len) _ (length-le_bytes 8 f.header_len)
      ∙ drop_past 8 0 (le_bytes 8 f.bundle_len) digests_on (length-le_bytes 8 f.bundle_len)

  past_lengths : (n : ℕ) → drop (16 + n) encoded ≡ drop n digests_on
  unfolding encode_footer
  past_lengths n =
      ap (λ i. drop i encoded) (omega arith)
      ∙ drop_past 8 (8 + n) (le_bytes 8 f.header_len) _ (length-le_bytes 8 f.header_len)
      ∙ drop_past 8 n (le_bytes 8 f.bundle_len) digests_on (length-le_bytes 8 f.bundle_len)

  at_48 : drop 48 encoded ≡ bundle_on
  at_48 = past_lengths 32 ∙ drop_past 32 0 f.header_sha256 bundle_on fits.header_digest

  at_80 : drop 80 encoded ≡ version_on
  at_80 =
      past_lengths 64
      ∙ drop_past 32 32 f.header_sha256 bundle_on fits.header_digest
      ∙ drop_past 32 0 f.bundle_sha256 version_on fits.bundle_digest

  pub at_84 : drop 84 encoded ≡ footer_magic
  unfolding le_bytes
  at_84 =
      past_lengths 68
      ∙ drop_past 32 36 f.header_sha256 bundle_on fits.header_digest
      ∙ drop_past 32 4 f.bundle_sha256 version_on fits.bundle_digest

  magic_lem : slice 84 100 encoded ≡ footer_magic
  magic_lem = ap (take 16) at_84

  version_lem : from_le_bytes (slice 80 84 encoded) ≡ 1
  unfolding le_bytes from_le_bytes
  version_lem = ap (λ s. from_le_bytes (take 4 s)) at_80

  header_len_lem : from_le_bytes (slice 0 8 encoded) ≡ f.header_len
  unfolding encode_footer
  header_len_lem =
      ap from_le_bytes (take_front 8 (le_bytes 8 f.header_len) _ (length-le_bytes 8 f.header_len))
      ∙ from_le_bytes-le_bytes 8 f.header_len fits.header_fits

  bundle_len_lem : from_le_bytes (slice 8 16 encoded) ≡ f.bundle_len
  unfolding encode_footer
  bundle_len_lem =
      ap (λ s. from_le_bytes (take 8 s))
        (drop_past 8 0 (le_bytes 8 f.header_len) _ (length-le_bytes 8 f.header_len))
      ∙ (ap from_le_bytes
            (take_front 8 (le_bytes 8 f.bundle_len) digests_on (length-le_bytes 8 f.bundle_len))
          ∙ from_le_bytes-le_bytes 8 f.bundle_len fits.bundle_fits)

  header_sha256_lem : slice 16 48 encoded ≡ f.header_sha256
  header_sha256_lem =
      ap (take 32) at_16 ∙ take_front 32 f.header_sha256 bundle_on fits.header_digest

  bundle_sha256_lem : slice 48 80 encoded ≡ f.bundle_sha256
  bundle_sha256_lem =
      ap (take 32) at_48 ∙ take_front 32 f.bundle_sha256 version_on fits.bundle_digest

  -- A footer whose lengths fit in 64 bits and whose digests have 32 bytes is decoded to the lengths
  -- and digests that were encoded.
  pub decode_footer-encode_footer : decode_footer encoded ≡ ok (some f)
  unfolding decode_footer
  decode_footer-encode_footer =
      rw
        (
          magic_lem,
          ==-refl footer_magic,
          version_lem,
          header_len_lem,
          bundle_len_lem,
          header_sha256_lem,
          bundle_sha256_lem,
        )
        refl

  -- It takes 100 bytes.
  pub length-encode_footer : length encoded ≡ footer_len
  unfolding encode_footer le_bytes
  length-encode_footer = omega (
    arith,
    length-append f.header_sha256 bundle_on,
    length-append f.bundle_sha256 version_on,
    fits.header_digest,
    fits.bundle_digest,
  )
