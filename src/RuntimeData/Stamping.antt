-- ===== src/RuntimeData/Stamping.antt =====
-- Writing a stamp behind an executable that is neither Mach-O nor PE, and finding it again:
-- `write_runtime_content`, `read_runtime_data_with_search_spec` and what they call in
-- src/runtime_data.rs. A file is its bytes.
use conda_ship.Prelude.{
  false, ◌≤◌, ℕ, zero, suc, ◌+◌, ◌-◌, Bool, true, not, Option, none, some, [], ◌++◌, Bytes, length,
  take, drop, any, ◌≡◌, ◌==◌, list_eq, number_eq, leb, ltb, nat_eq, if◌then◌else◌, ◌&&◌,
}
use conda_ship.Hash.{Digest}
use conda_ship.RuntimeData.Header.{RuntimeDataHeader, RuntimeUpdateConfig, has_compatibility_policy}
use conda_ship.RuntimeData.Result.{
  Result, ok, err, ◌>>=◌, ◌>>◌, check, length_overflow, before_start, before_minimum,
  header_too_large, header_mismatch, unparsable, unsupported_schema, nonzero_padding, bundle_grew,
  bundle_changed, panicked,
}
use conda_ship.RuntimeData.Binary.{read_exact, max_u64}
use conda_ship.RuntimeData.Footer.{
  DecodedFooter, encode_footer, decode_footer, footer_magic, footer_len, format_version,
}

abbrev pub max_header_len : ℕ
max_header_len = 16777216

-- A header without the legacy update policy, which is read but not written, and with a build number
-- that fits its type.
abbrev pub IsCurrent : Option RuntimeUpdateConfig → Type 0
IsCurrent none = Unit {0}
IsCurrent (some c) = (has_compatibility_policy c ≡ false) × (c.build_number ≤ max_u64)

-- serde_json for the header: what it writes of a current header it reads.
pub record HeaderJson : Type 0 where
  pub parse : Bytes → Option RuntimeDataHeader
  pub render : RuntimeDataHeader → Bytes
  pub parse-render :
      (h : RuntimeDataHeader)
      → h.schema_version ≤ max_u64
      → IsCurrent h.update
      → parse (render h) ≡ some h

-- A bundle that is being copied: its length when it was opened, what the two passes over it read,
-- and what `ensure_unchanged` says after each.
pub record BundleSource : Type 0 where
  pub len : ℕ
  pub first : Bytes
  pub second : Bytes
  pub unchanged_first : Bool
  pub unchanged_second : Bool

pub record PreparedRuntimeData : Type 0 where
  pub header_bytes : Bytes
  pub header_len : ℕ
  pub bundle_len : ℕ
  pub header_sha256 : Bytes
  pub payload_len : ℕ

-- The path of the file, which the reader passes on, is left out.
pub record EmbeddedBundle : Type 0 where
  pub offset : ℕ
  pub len : ℕ
  pub sha256 : Bytes

pub record RuntimeData : Type 0 where
  pub header : RuntimeDataHeader
  pub bundle : Option EmbeddedBundle
  pub stamped : Bool

pub record FooterSearchSpec : Type 0 where
  pub data_end : ℕ
  pub alignment : ℕ
  pub minimum_payload_offset : ℕ

abbrev pub copied_from : Option BundleSource → Bytes
copied_from none = []
copied_from (some source) = source.first

abbrev pub bundle_len_of : Option BundleSource → ℕ
bundle_len_of none = 0
bundle_len_of (some source) = source.len

module _ (digest : Digest) (json : HeaderJson) where
  -- The first part of `append_to_binary`.
  unfoldable pub prepare : RuntimeDataHeader → Option BundleSource → Result PreparedRuntimeData
  prepare header bundle = do
    check (nat_eq header.schema_version format_version) unsupported_schema
    let header_bytes = json.render header
    check (leb (length header_bytes) max_header_len) header_too_large
    let payload_len = length header_bytes + bundle_len_of bundle + footer_len
    check (leb payload_len max_u64) length_overflow
    ok (record {
      header_bytes = header_bytes;
      header_len = length header_bytes;
      bundle_len = bundle_len_of bundle;
      header_sha256 = digest.sha256 header_bytes;
      payload_len = payload_len;
    })

  -- The second pass over the bundle.
  recheck : Bytes → Option BundleSource → Result (Unit {0})
  recheck bundle_sha256 none = ok tt
  recheck bundle_sha256 (some source) = do
    check source.unchanged_first bundle_changed
    check source.unchanged_second bundle_changed
    check
        (nat_eq (length (take source.len source.second)) source.len
          && (digest.sha256 (take source.len source.second) == bundle_sha256))
        bundle_changed

  -- The bytes written, and the footer that goes with them.
  unfoldable pub write_runtime_content :
      Option BundleSource → PreparedRuntimeData → Result (Bytes × Bytes)
  unfolding recheck
  write_runtime_content bundle prepared = do
    let copied = copied_from bundle
    check (leb (length copied) prepared.bundle_len) bundle_grew
    check (nat_eq (length copied) prepared.bundle_len) bundle_changed
    recheck (digest.sha256 copied) bundle
    ok (
      prepared.header_bytes ++ copied,
      encode_footer prepared.header_len prepared.bundle_len prepared.header_sha256
          (digest.sha256 copied),
    )

  -- The file after `write_runtime_payload` at its end.
  unfoldable pub write_runtime_payload :
      Bytes → Option BundleSource → PreparedRuntimeData → Result Bytes
  write_runtime_payload file bundle prepared = do
    (content, footer) ← write_runtime_content bundle prepared
    ok (file ++ (content ++ footer))

  bundle_of : ℕ → DecodedFooter → Option EmbeddedBundle
  bundle_of payload_start decoded =
      if ltb 0 decoded.bundle_len
      then some (record {
        offset = payload_start + decoded.header_len;
        len = decoded.bundle_len;
        sha256 = decoded.bundle_sha256;
      })
      else none

  parsed : ℕ → DecodedFooter → Option RuntimeDataHeader → Result (Option RuntimeData)
  parsed payload_start decoded none = err unparsable
  parsed payload_start decoded (some header) = do
    check (nat_eq header.schema_version format_version) unsupported_schema
    ok (some (record { header = header; bundle = bundle_of payload_start decoded; stamped = true }))

  unfoldable pub read_runtime_data_payload : Bytes → ℕ → DecodedFooter → Result (Option RuntimeData)
  unfolding bundle_of parsed
  read_runtime_data_payload file payload_start decoded = do
    check (leb decoded.header_len max_header_len) header_too_large
    header_bytes ← read_exact file payload_start decoded.header_len
    check (digest.sha256 header_bytes == decoded.header_sha256) header_mismatch
    parsed payload_start decoded (json.parse header_bytes)

  located : Bytes → ℕ → ℕ → DecodedFooter → Result (Option RuntimeData)
  located file footer_start min_payload_start decoded = do
    let payload_len = decoded.header_len + decoded.bundle_len
    check (leb payload_len max_u64) length_overflow
    check (leb payload_len footer_start) before_start
    check (leb min_payload_start (footer_start - payload_len)) before_minimum
    read_runtime_data_payload file (footer_start - payload_len) decoded

  located_if : Bytes → ℕ → ℕ → Option DecodedFooter → Result (Option RuntimeData)
  located_if file footer_start min_payload_start none = ok none
  located_if file footer_start min_payload_start (some decoded) =
      located file footer_start min_payload_start decoded

  unfoldable pub read_runtime_data_at_footer : Bytes → ℕ → ℕ → Bytes → Result (Option RuntimeData)
  unfolding located located_if
  read_runtime_data_at_footer file footer_start min_payload_start footer = do
    decoded ← decode_footer footer
    located_if file footer_start min_payload_start decoded

  -- The bytes between the footer and its aligned end. The buffer of the source holds 15.
  check_padding : Bytes → ℕ → ℕ → Result (Unit {0})
  check_padding file footer_end zero = ok tt
  check_padding file footer_end (suc n) = do
    check (leb (suc n) 15) panicked
    bytes ← read_exact file footer_end (suc n)
    check (not (any (λ b. not (nat_eq b 0)) bytes)) nonzero_padding

  read_found : Bytes → FooterSearchSpec → ℕ → Bytes → Result (Option RuntimeData)
  read_found file spec padding footer = do
    check_padding file (spec.data_end - padding) padding
    read_runtime_data_at_footer file (spec.data_end - padding - footer_len)
        spec.minimum_payload_offset footer

  -- The loop over the padding, with `left` rounds to go.
  unfoldable pub search_from : Bytes → FooterSearchSpec → ℕ → ℕ → Result (Option RuntimeData)
  unfolding check_padding read_found
  search_from file spec padding zero = ok none
  search_from file spec padding (suc left) =
      let rest = search_from file spec (suc padding) left in
      if leb (padding + footer_len) spec.data_end
      then (do
        footer ← read_exact file (spec.data_end - padding - footer_len) footer_len
        if drop 84 footer == footer_magic then read_found file spec padding footer else rest)
      else rest

  -- `0..=alignment.saturating_sub(1)`
  unfoldable pub read_runtime_data_with_search_spec :
      Bytes → FooterSearchSpec → Result (Option RuntimeData)
  read_runtime_data_with_search_spec file spec = search_from file spec 0 (suc (spec.alignment - 1))
