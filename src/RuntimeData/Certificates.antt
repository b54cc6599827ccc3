-- ===== src/RuntimeData/Certificates.antt =====
-- The end of a stamped PE file: `pe_runtime_content_layout` and `validate_pe_certificate_table` of
-- src/runtime_data.rs.
use conda_ship.Prelude.{
  ℕ, zero, suc, ◌+◌, ◌-◌, ◌*◌, ◌/◌, ◌%◌, ◌≤◌, ◌<◌, Bool, true, false, not, Bytes, take, drop,
  length, leb→le, ◌≡◌, ◌≢◌, refl, ltb, leb, if◌then◌else◌, arith, nat_eq, ap,
}
use conda_ship.RuntimeData.Result.{
  DataError, Result, ok, err, ◌>>=◌, ◌>>◌, check, range_overflow, too_large, entry_truncated,
  too_many_entries, entry_too_small, entries_exceed, out_of_fuel, unexpected_eof, zero_alignment,
  alignment_overflow,
}
use conda_ship.RuntimeData.Binary.{align_up, read_exact, from_le_bytes, max_u64}

abbrev pub max_u32 : ℕ
max_u32 = 4294967295

abbrev pub pe_certificate_alignment : ℕ
pe_certificate_alignment = 8

abbrev pub max_pe_certificate_entries : ℕ
max_pe_certificate_entries = 1024

-- Where the content starts, so that it ends aligned.
unfoldable pub pe_runtime_content_layout : ℕ → ℕ → Result (ℕ × ℕ)
pe_runtime_content_layout anchor_end content_len = do
  check (leb (anchor_end + content_len) max_u64) range_overflow
  payload_end ← align_up (anchor_end + content_len) pe_certificate_alignment
  check (leb payload_end max_u32) too_large
  check (leb (anchor_end + (payload_end - (anchor_end + content_len))) max_u64) range_overflow
  ok (anchor_end + (payload_end - (anchor_end + content_len)), payload_end)

-- The body of the loop, in parts: an entry of `aligned_len` bytes is passed,
pass_entry : (ℕ → Result (Unit {0})) → ℕ → ℕ → ℕ → Result (Unit {0})
pass_entry again size cursor aligned_len = do
  check (leb (cursor + aligned_len) max_u64) range_overflow
  check (leb (cursor + aligned_len) size) entries_exceed
  again (cursor + aligned_len)

-- its length is tested and rounded up,
measure_entry : (ℕ → Result (Unit {0})) → ℕ → ℕ → Bytes → Result (Unit {0})
measure_entry again size cursor header = do
  check (not (ltb (from_le_bytes (take 4 header)) 8)) entry_too_small
  aligned_len ← align_up (from_le_bytes (take 4 header)) pe_certificate_alignment
  pass_entry again size cursor aligned_len

-- and its header is read.
read_entry : (ℕ → Result (Unit {0})) → Bytes → ℕ → ℕ → ℕ → ℕ → Result (Unit {0})
read_entry again file offset size cursor entry_count = do
  check (not (ltb (size - cursor) 8)) entry_truncated
  check (leb (entry_count + 1) max_pe_certificate_entries) too_many_entries
  header ← read_exact file (offset + cursor) 8
  measure_entry again size cursor header

-- The loop over the entries, from `cursor` on.
unfoldable pub walk_entries : ℕ → Bytes → ℕ → ℕ → ℕ → ℕ → Result (Unit {0})
unfolding read_entry measure_entry pass_entry
walk_entries zero file offset size cursor entry_count = err out_of_fuel
walk_entries (suc fuel) file offset size cursor entry_count =
    if ltb cursor size
    then read_entry (λ c. walk_entries fuel file offset size c (entry_count + 1)) file offset size
        cursor entry_count
    else ok tt

-- No more than 1024 entries are walked, so 1025 rounds are enough.
unfoldable pub validate_pe_certificate_table : Bytes → ℕ → ℕ → Result (Unit {0})
validate_pe_certificate_table file offset size = walk_entries 1025 file offset size 0 0

layout_eq :
    (a n : ℕ)
    → a + n + 7 ≤ max_u32
    → pe_runtime_content_layout a n ≡ ok (a + ((a + n + 7) / 8 * 8 - (a + n)), (a + n + 7) / 8 * 8)
unfolding pe_runtime_content_layout align_up
layout_eq a n h = ground arith

-- Content that ends in the first four gigabytes is placed behind the anchor, fewer than eight bytes
-- away, and ends exactly at a multiple of eight.
pub layout_lem :
    (anchor_end content_len : ℕ)
    → anchor_end + content_len + 7 ≤ max_u32
    → (start : ℕ) × (stop : ℕ) × (pe_runtime_content_layout anchor_end content_len
        ≡ ok (start, stop))
      × (start + content_len ≡ stop)
      × (anchor_end ≤ start)
      × (start < anchor_end + 8)
      × (stop % 8 ≡ 0)
layout_lem a n h = (
  a + ((a + n + 7) / 8 * 8 - (a + n)),
  (a + n + 7) / 8 * 8,
  layout_eq a n h,
  omega arith,
  omega arith,
  omega arith,
  omega arith,
)

module _ {A B : Type 0} (f : A → Result B) where
  bind-ne : (r : Result A) (e : DataError) → r ≢ err e → ((a : A) → f a ≢ err e) → (r >>= f) ≢ err e
  bind-ne (ok a) e h k = k a
  bind-ne (err x) e h k = λ same. h (let e : x ≡ e = cc same in ap err e)

module _ {B : Type 0} (k : Result B) where
  check-ne :
      (b : Bool) (x e : DataError) → x ≢ e → (b ≡ true → k ≢ err e) → (check b x >> k) ≢ err e
  check-ne true x e h k' = k' refl
  check-ne false x e h k' = λ same. h (cc same)

if-ne :
    {B : Type 0} (b : Bool) (x y : Result B) (e : DataError)
    → x ≢ err e
    → y ≢ err e
    → (if b then x else y) ≢ err e
if-ne true x y e h k = h
if-ne false x y e h k = k

read_exact-ne : (file : Bytes) (offset len : ℕ) → read_exact file offset len ≢ err out_of_fuel
unfolding read_exact
read_exact-ne file offset len = sort (leb (offset + len) (length file))
  where
    sort :
        (b : Bool)
        → (if b then ok (take len (drop offset file)) else err unexpected_eof) ≢ err out_of_fuel
    sort true = λ h. cc
    sort false = λ h. cc

align_up-ne : (value alignment : ℕ) → align_up value alignment ≢ err out_of_fuel
unfolding align_up
align_up-ne value alignment = sort (nat_eq alignment 0) (leb (value + (alignment - 1)) max_u64)
  where
    sort :
        (b b' : Bool)
        → (if b
            then err zero_alignment
            else if b'
            then ok ((value + (alignment - 1)) / alignment * alignment)
            else err alignment_overflow)
          ≢ err out_of_fuel
    sort true b' = λ h. cc
    sort false true = λ h. cc
    sort false false = λ h. cc

ok-ne : ◌≢◌ {A = Result (Unit {0})} (ok tt) (err out_of_fuel)
ok-ne = λ h. cc

module _ (again : ℕ → Result (Unit {0})) where
  pass_entry-ne :
      (size cursor aligned_len : ℕ)
      → again (cursor + aligned_len) ≢ err out_of_fuel
      → pass_entry again size cursor aligned_len ≢ err out_of_fuel
  unfolding pass_entry
  pass_entry-ne size cursor aligned_len h =
      check-ne
        (check (leb (cursor + aligned_len) size) entries_exceed >> again (cursor + aligned_len)) _
        range_overflow out_of_fuel (λ h. cc)
        λ _. check-ne (again (cursor + aligned_len)) _ entries_exceed out_of_fuel (λ h. cc) λ _. h

  measure_entry-ne :
      (size cursor : ℕ) (header : Bytes)
      → ((c : ℕ) → again c ≢ err out_of_fuel)
      → measure_entry again size cursor header ≢ err out_of_fuel
  unfolding measure_entry
  measure_entry-ne size cursor header h =
      check-ne (align_up (from_le_bytes (take 4 header)) 8 >>= pass_entry again size cursor) _
        entry_too_small out_of_fuel (λ h. cc)
        λ _.
          bind-ne (pass_entry again size cursor) _ out_of_fuel (align_up-ne _ 8)
            λ aligned_len. pass_entry-ne size cursor aligned_len (h (cursor + aligned_len))

  read_entry-ne :
      (file : Bytes) (offset size cursor entry_count : ℕ)
      → (entry_count < 1024 → (c : ℕ) → again c ≢ err out_of_fuel)
      → read_entry again file offset size cursor entry_count ≢ err out_of_fuel
  unfolding read_entry
  read_entry-ne file offset size cursor entry_count h =
      check-ne
        (check (leb (entry_count + 1) max_pe_certificate_entries) too_many_entries
          >> (read_exact file (offset + cursor) 8 >>= measure_entry again size cursor))
        _ entry_truncated out_of_fuel (λ h. cc)
        λ _.
          check-ne (read_exact file (offset + cursor) 8 >>= measure_entry again size cursor)
            (leb (entry_count + 1) max_pe_certificate_entries) too_many_entries out_of_fuel
            (λ h. cc)
            λ small.
              bind-ne (measure_entry again size cursor) _ out_of_fuel
                (read_exact-ne file (offset + cursor) 8)
                λ header.
                  measure_entry-ne size cursor header
                    (h (omega (arith, leb→le (entry_count + 1) max_pe_certificate_entries small)))

walk_entries-ne :
    (fuel : ℕ) (file : Bytes) (offset size cursor entry_count : ℕ)
    → 1025 ≤ fuel + entry_count
    → entry_count ≤ 1024
    → walk_entries fuel file offset size cursor entry_count ≢ err out_of_fuel
unfolding walk_entries
walk_entries-ne zero file offset size cursor entry_count enough few = absurd (omega arith)
walk_entries-ne (suc fuel) file offset size cursor entry_count enough few =
    if-ne (ltb cursor size) _ _ out_of_fuel
      (read_entry-ne _ file offset size cursor entry_count λ small c.
        walk_entries-ne fuel file offset size c (entry_count + 1) (omega arith) (omega arith))
      ok-ne

-- The walk over the certificates always ends within its 1025 rounds, whatever the file holds.
pub certificate_walk_ends :
    (file : Bytes) (offset size : ℕ)
    → validate_pe_certificate_table file offset size ≢ err out_of_fuel
unfolding validate_pe_certificate_table
certificate_walk_ends file offset size =
    walk_entries-ne 1025 file offset size 0 0 (omega arith) (omega arith)
