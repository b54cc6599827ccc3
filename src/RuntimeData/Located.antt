-- ===== src/RuntimeData/Located.antt =====
-- Where the parts of a stamp of src/runtime_data.rs stand in a file that is neither Mach-O nor PE.
use conda_ship.Prelude.{
  ℕ, ◌+◌, ◌-◌, ◌^◌, ◌≤◌, ◌<◌, true, Option, none, some, [], ◌∷◌, ◌++◌, Bytes, length, take,
  length-append, append_assoc, append-nil, ◌≡◌, ◌∙◌, ap, refl, sym, leb, ltb, nat_eq, if◌then◌else◌,
  ◌&&◌, ◌==◌, list_eq, number_eq, ==-refl, arith,
}
use conda_ship.Hash.{Digest}
use conda_ship.RuntimeData.Header.{RuntimeDataHeader}
use conda_ship.RuntimeData.Append.{whole_file}
use conda_ship.RuntimeData.Result.{ok}
use conda_ship.RuntimeData.Binary.{read_exact, read_exact-middle, max_u64}
use conda_ship.RuntimeData.Footer.{
  DecodedFooter, Fits, encode_footer, footer_magic, footer_len, format_version, at_84,
  decode_footer-encode_footer, length-encode_footer,
}
use conda_ship.RuntimeData.Stamping.{
  IsCurrent, HeaderJson, BundleSource, EmbeddedBundle, PreparedRuntimeData, max_header_len,
  copied_from, bundle_len_of, prepare, write_runtime_content, write_runtime_payload,
  read_runtime_data_payload, read_runtime_data_at_footer, search_from,
  read_runtime_data_with_search_spec,
}

-- A bundle that does not change while it is copied.
pub record IsStableSource (source : BundleSource) : Type 0 where
  pub complete : length source.first ≡ source.len
  pub same : source.second ≡ source.first
  pub before : source.unchanged_first ≡ true
  pub after : source.unchanged_second ≡ true

abbrev pub IsStable : Option BundleSource → Type 0
IsStable none = Unit {0}
IsStable (some source) = IsStableSource source

pub take_all : (s : Bytes) → take (length s) s ≡ s
take_all [] = refl
take_all (x ∷ s) = ap (λ t. x ∷ t) (take_all s)

leb-true : (a b : ℕ) → a ≤ b → leb a b ≡ true
leb-true a b h = ground arith

eq_true : (a b : ℕ) → a ≡ b → nat_eq a b ≡ true
eq_true a b h = ground arith

second_pass :
    (digest : Digest) (len : ℕ) (first second : Bytes)
    → length first ≡ len
    → second ≡ first
    → (nat_eq (length (take len second)) len
        && (digest.sha256 (take len second) == digest.sha256 first))
      ≡ true
second_pass digest len first second h e =
    rw
      (
        e,
        ← h,
        take_all first,
        eq_true (length first) (length first) refl,
        ==-refl (digest.sha256 first),
      )
      refl

module _ (digest : Digest) (json : HeaderJson) where
  module _ (header : RuntimeDataHeader) (bundle : Option BundleSource) where
    -- The limits that `append_to_binary` tests.
    pub record IsWritable : Type 0 where
      pub schema : header.schema_version ≡ format_version
      pub header_small : length (json.render header) ≤ max_header_len
      pub in_range : length (json.render header) + bundle_len_of bundle + footer_len ≤ max_u64
      pub stable : IsStable bundle
      pub current : IsCurrent header.update

  module _ (file : Bytes) (header : RuntimeDataHeader) where
    abbrev pub header_bytes : Bytes
    header_bytes = json.render header

    abbrev pub footer_of : Option BundleSource → DecodedFooter
    footer_of bundle = record {
      header_len = length header_bytes;
      bundle_len = bundle_len_of bundle;
      header_sha256 = digest.sha256 header_bytes;
      bundle_sha256 = digest.sha256 (copied_from bundle);
    }

    abbrev pub footer_bytes : Option BundleSource → Bytes
    footer_bytes bundle =
        encode_footer (length header_bytes) (bundle_len_of bundle) (digest.sha256 header_bytes)
          (digest.sha256 (copied_from bundle))

    abbrev pub stamped_bytes : Option BundleSource → Bytes
    stamped_bytes bundle = file ++ ((header_bytes ++ copied_from bundle) ++ footer_bytes bundle)

    pub copied_len :
        (bundle : Option BundleSource)
        → IsStable bundle
        → length (copied_from bundle) ≡ bundle_len_of bundle
    copied_len none w = refl
    copied_len (some source) w = w.complete

    abbrev pub prepared_of : Option BundleSource → PreparedRuntimeData
    prepared_of bundle = record {
      header_bytes = header_bytes;
      header_len = length header_bytes;
      bundle_len = bundle_len_of bundle;
      header_sha256 = digest.sha256 header_bytes;
      payload_len = length header_bytes + bundle_len_of bundle + footer_len;
    }

    pub prepare-prepared :
        (bundle : Option BundleSource)
        → IsWritable header bundle
        → prepare digest json header bundle ≡ ok (prepared_of bundle)
    unfolding prepare
    prepare-prepared bundle w =
        rw (eq_true _ _ w.schema, leb-true _ _ w.header_small, leb-true _ _ w.in_range) refl

    pub write-content :
        (bundle : Option BundleSource)
        → IsWritable header bundle
        → write_runtime_payload digest json file bundle (prepared_of bundle)
          ≡ ok (stamped_bytes bundle)
    unfolding write_runtime_payload write_runtime_content
    write-content none w = refl
    write-content (some source) w =
        rw
          (
            leb-true (length source.first) source.len (omega (arith, w.stable.complete)),
            eq_true _ _ w.stable.complete,
            w.stable.before,
            w.stable.after,
            second_pass digest source.len source.first source.second w.stable.complete
                w.stable.same,
          )
          refl

    module _ (bundle : Option BundleSource) (w : IsWritable header bundle) where
      abbrev content : Bytes
      content = header_bytes ++ copied_from bundle

      u64_top : (n : ℕ) → n ≤ max_u64 → n < 256 ^ 8
      u64_top n h = omega arith

      footer_fits : Fits (footer_of bundle)
      footer_fits = record {
        header_fits = u64_top _ (omega (arith, w.in_range));
        bundle_fits = u64_top _ (omega (arith, w.in_range));
        header_digest = digest.length-sha256 header_bytes;
        bundle_digest = digest.length-sha256 (copied_from bundle);
      }

      footer_size : length (footer_bytes bundle) ≡ footer_len
      footer_size = length-encode_footer (footer_of bundle) footer_fits

      stamped_size :
          length (stamped_bytes bundle)
          ≡ length file + (length header_bytes + bundle_len_of bundle) + footer_len
      stamped_size = omega (
        arith,
        length-append file (content ++ footer_bytes bundle),
        length-append content (footer_bytes bundle),
        length-append header_bytes (copied_from bundle),
        copied_len bundle w.stable,
        footer_size,
      )

      -- The three ranges of a stamped file.
      read-footer :
          (offset : ℕ)
          → offset ≡ length file + (length header_bytes + bundle_len_of bundle)
          → read_exact (stamped_bytes bundle) offset footer_len ≡ ok (footer_bytes bundle)
      read-footer offset e =
          ap (λ s. read_exact s offset footer_len)
            (sym (append_assoc file content (footer_bytes bundle))
              ∙ ap (λ s. (file ++ content) ++ s) (sym (append-nil (footer_bytes bundle))))
          ∙ read_exact-middle (file ++ content) (footer_bytes bundle) [] offset footer_len
              (omega (
                arith,
                length-append file content,
                length-append header_bytes (copied_from bundle),
                copied_len bundle w.stable,
              ))
              footer_size

      pub read-header :
          (offset : ℕ)
          → offset ≡ length file
          → read_exact (stamped_bytes bundle) offset (length header_bytes) ≡ ok header_bytes
      read-header offset e =
          ap (λ s. read_exact (file ++ s) offset (length header_bytes))
            (append_assoc header_bytes (copied_from bundle) (footer_bytes bundle))
          ∙ read_exact-middle file header_bytes (copied_from bundle ++ footer_bytes bundle) offset
              (length header_bytes) (omega arith) refl

      pub read-bundle :
          (offset : ℕ)
          → offset ≡ length file + length header_bytes
          → read_exact (stamped_bytes bundle) offset (bundle_len_of bundle)
            ≡ ok (copied_from bundle)
      read-bundle offset e =
          ap (λ s. read_exact s offset (bundle_len_of bundle))
            (ap (λ s. file ++ s)
                (append_assoc header_bytes (copied_from bundle) (footer_bytes bundle))
              ∙ sym (append_assoc file header_bytes (copied_from bundle ++ footer_bytes bundle)))
          ∙ read_exact-middle (file ++ header_bytes) (copied_from bundle) (footer_bytes bundle)
              offset (bundle_len_of bundle) (omega (arith, length-append file header_bytes))
              (copied_len bundle w.stable)

      -- What a reader of the stamped file is told: the bundle, if it is not empty, and where.
      abbrev pub bundle_told : Option EmbeddedBundle
      bundle_told =
          if ltb 0 (bundle_len_of bundle)
          then some (record {
            offset = length file + length header_bytes;
            len = bundle_len_of bundle;
            sha256 = digest.sha256 (copied_from bundle);
          })
          else none

      footer_start_lem :
          length (stamped_bytes bundle) - 0 - footer_len
          ≡ length file + (length header_bytes + bundle_len_of bundle)
      footer_start_lem = omega (arith, stamped_size)

      payload_start_lem :
          length file
            + (length header_bytes + bundle_len_of bundle)
            - (length header_bytes + bundle_len_of bundle)
          ≡ length file
      payload_start_lem = omega arith

      read-payload :
          read_runtime_data_payload digest json
            (stamped_bytes bundle)
            (length file)
            (footer_of bundle)
          ≡ ok (some (record { header = header; bundle = bundle_told; stamped = true }))
      unfolding read_runtime_data_payload
      read-payload =
          rw
            (
              leb-true _ _ w.header_small,
              read-header (length file) refl,
              ==-refl (digest.sha256 header_bytes),
              json.parse-render header (omega (arith, w.schema)) w.current,
              eq_true _ _ w.schema,
            )
            refl

      read-located :
          read_runtime_data_at_footer digest json
            (stamped_bytes bundle)
            (length file + (length header_bytes + bundle_len_of bundle))
            0
            (footer_bytes bundle)
          ≡ ok (some (record { header = header; bundle = bundle_told; stamped = true }))
      unfolding read_runtime_data_at_footer
      read-located =
          rw
            (
              decode_footer-encode_footer (footer_of bundle) footer_fits,
              leb-true (length header_bytes + bundle_len_of bundle) max_u64
                  (omega (arith, w.in_range)),
              leb-true (length header_bytes + bundle_len_of bundle)
                  (length file + (length header_bytes + bundle_len_of bundle)) (omega arith),
              payload_start_lem,
              leb-true 0 (length file) (omega arith),
            )
            read-payload

      pub read-stamped :
          read_runtime_data_with_search_spec digest json
            (stamped_bytes bundle)
            (whole_file (stamped_bytes bundle))
          ≡ ok (some (record { header = header; bundle = bundle_told; stamped = true }))
      unfolding read_runtime_data_with_search_spec search_from
      read-stamped =
          rw
            (
              leb-true (0 + footer_len) (length (stamped_bytes bundle))
                  (omega (arith, stamped_size)),
              footer_start_lem,
              read-footer (length file + (length header_bytes + bundle_len_of bundle)) refl,
              at_84 (footer_of bundle) footer_fits,
              ==-refl footer_magic,
            )
            read-located
