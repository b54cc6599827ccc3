-- ===== src/RuntimeData/Binary.antt =====
-- Numbers and ranges in a file: `to_le_bytes`, `from_le_bytes`, `read_exact` after `seek`, and
-- `align_up` of src/runtime_data.rs.
use conda_ship.Prelude.{
  ℕ, zero, suc, ◌+◌, ◌-◌, ◌*◌, ◌/◌, ◌%◌, ◌^◌, ◌<◌, true, [], ◌∷◌, ◌++◌, Bytes, length, take, drop,
  length-append, take-append, ◌≡◌, ◌∙◌, ap, refl, leb, nat_eq, if◌then◌else◌, arith,
}
use conda_ship.RuntimeData.Result.{
  Result, ok, err, unexpected_eof, zero_alignment, alignment_overflow,
}

abbrev pub max_u64 : ℕ
max_u64 = 18446744073709551615

unfoldable pub le_bytes : ℕ → ℕ → Bytes
le_bytes zero n = []
le_bytes (suc width) n = n % 256 ∷ le_bytes width (n / 256)

unfoldable pub from_le_bytes : Bytes → ℕ
from_le_bytes [] = 0
from_le_bytes (b ∷ bytes) = b + 256 * from_le_bytes bytes

pub from_le_bytes-le_bytes : (width n : ℕ) → n < 256 ^ width → from_le_bytes (le_bytes width n) ≡ n
unfolding le_bytes from_le_bytes
from_le_bytes-le_bytes zero n h = omega arith
from_le_bytes-le_bytes (suc width) n h =
    omega (arith, from_le_bytes-le_bytes width (n / 256) (small (256 ^ width) n (omega arith)))
  where
    small : (m k : ℕ) → k < m * 256 → k / 256 < m
    small m k h = omega arith

pub length-le_bytes : (width n : ℕ) → length (le_bytes width n) ≡ width
unfolding le_bytes
length-le_bytes zero n = refl
length-le_bytes (suc width) n = ap suc (length-le_bytes width (n / 256))

-- `seek` and `read_exact` on a file with these bytes.
unfoldable pub read_exact : Bytes → ℕ → ℕ → Result Bytes
read_exact file offset len =
    if leb (offset + len) (length file)
    then ok (take len (drop offset file))
    else err unexpected_eof

pub drop_past : (k n : ℕ) (xs ys : Bytes) → length xs ≡ k → drop (k + n) (xs ++ ys) ≡ drop n ys
drop_past k n [] ys h = ap (λ i. drop i ys) (omega arith)
drop_past zero n (x ∷ xs) ys h = absurd (omega arith)
drop_past (suc k) n (x ∷ xs) ys h =
    let e : suc k + n ≡ suc (k + n) = omega arith in
    ap (λ i. drop i (x ∷ (xs ++ ys))) e ∙ drop_past k n xs ys (omega arith)

pub take_front : (k : ℕ) (xs ys : Bytes) → length xs ≡ k → take k (xs ++ ys) ≡ xs
take_front k xs ys h = rw (← h) (take-append xs ys)

-- A range that stands between two others is read back.
pub read_exact-middle :
    (before middle after : Bytes) (offset len : ℕ)
    → length before ≡ offset
    → length middle ≡ len
    → read_exact (before ++ (middle ++ after)) offset len ≡ ok middle
unfolding read_exact
read_exact-middle before middle after offset len h k =
    rw (fits, past, take_front len middle after k) refl
  where
    past : drop offset (before ++ (middle ++ after)) ≡ middle ++ after
    past =
        ap (λ i. drop i (before ++ (middle ++ after))) (omega arith)
        ∙ drop_past offset 0 before (middle ++ after) h

    fits : leb (offset + len) (length (before ++ (middle ++ after))) ≡ true
    fits = ground (arith, length-append before (middle ++ after), length-append middle after)

unfoldable pub align_up : ℕ → ℕ → Result ℕ
align_up value alignment =
    if nat_eq alignment 0
    then err zero_alignment
    else if leb (value + (alignment - 1)) max_u64
    then ok ((value + (alignment - 1)) / alignment * alignment)
    else err alignment_overflow
