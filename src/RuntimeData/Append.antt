-- ===== src/RuntimeData/Append.antt =====
-- Stamping a template executable, and reading the stamp of a file: `append_to_binary`,
-- `detect_binary_format` and `read_from_file` of src/runtime_data.rs. The readers and writers of
-- Mach-O and PE files are parameters. A file is its bytes, and the calls of the file system succeed.
use conda_ship.Prelude.{
  ℕ, Bool, true, false, not, Option, none, some, List, [], ◌∷◌, Text, Bytes, codes, length, take,
  any, ◌==◌, list_eq, number_eq, nat_eq, Comparable,
}
use conda_ship.Hash.{Digest}
use conda_ship.RuntimeData.Header.{RuntimeDataHeader}
use conda_ship.RuntimeData.Result.{
  Result, ok, err, ◌>>=◌, ◌>>◌, check, template_link, template_irregular, template_replaced,
  template_changed, macho_unsupported, invalid_pe, stamp_unread, stamp_mismatch, bundle_mismatch,
  bundle_missing, output_replaced,
}
use conda_ship.RuntimeData.Binary.{read_exact}
use conda_ship.RuntimeData.Stamping.{
  HeaderJson, BundleSource, EmbeddedBundle, FooterSearchSpec, RuntimeData, PreparedRuntimeData,
  prepare, write_runtime_payload, read_runtime_data_with_search_spec,
}

pub data BinaryFormat : Type 0 where
  macho64 unsupported_macho pe other : BinaryFormat

-- What `FileKind::parse` says of a file that begins with MZ, whether it is PE32 or PE32+, and the
-- readers and writers of the two formats that have a structure.
pub record Formats : Type 0 where
  pub is_pe : Bytes → Result Bool
  pub read_macho : Bytes → Result (Option RuntimeData)
  pub read_pe : Bytes → Result (Option RuntimeData)
  pub write_macho : Bytes → Option BundleSource → PreparedRuntimeData → Text → Result Bytes
  pub write_pe : Bytes → Option BundleSource → PreparedRuntimeData → Text → Result Bytes

-- The template that is stamped: what its path is, its length when it was opened, what is copied
-- and what is read again, and what the later tests of the paths and of the open file find.
pub record Template : Type 0 where
  pub is_symlink : Bool
  pub is_regular : Bool
  pub opened_same : Bool
  pub len : ℕ
  pub first : Bytes
  pub second : Bytes
  pub unchanged : Bool
  pub output_same : Bool
  pub stamped_same : Bool
  pub persisted_same : Bool

abbrev pub macho64_magic : Bytes
macho64_magic = 0xcf ∷ 0xfa ∷ 0xed ∷ 0xfe ∷ []

-- Big-endian, 32-bit and universal.
abbrev pub unsupported_magics : List Bytes
unsupported_magics =
    (0xfe ∷ 0xed ∷ 0xfa ∷ 0xcf ∷ [])
    ∷ (0xce ∷ 0xfa ∷ 0xed ∷ 0xfe ∷ [])
    ∷ (0xfe ∷ 0xed ∷ 0xfa ∷ 0xce ∷ [])
    ∷ (0xca ∷ 0xfe ∷ 0xba ∷ 0xbe ∷ [])
    ∷ (0xbe ∷ 0xba ∷ 0xfe ∷ 0xca ∷ [])
    ∷ (0xca ∷ 0xfe ∷ 0xba ∷ 0xbf ∷ [])
    ∷ (0xbf ∷ 0xba ∷ 0xfe ∷ 0xca ∷ [])
    ∷ []

-- The whole file is searched, with no padding behind the footer.
abbrev pub whole_file : Bytes → FooterSearchSpec
whole_file file = record { data_end = length file; alignment = 1; minimum_payload_offset = 0 }

unfoldable pub hash_file_range : Digest → Bytes → ℕ → ℕ → Result Bytes
hash_file_range digest file offset len = do
  bytes ← read_exact file offset len
  ok (digest.sha256 bytes)

module _ (formats : Formats) where
  -- A file that begins with MZ.
  mz_format : Bytes → Result BinaryFormat
  mz_format file = do found ← formats.is_pe file; check found invalid_pe; ok pe

  -- By the tests of its first bytes, in their order.
  unfoldable pub by_magic : Bool → Bool → Bool → Bytes → Result BinaryFormat
  unfolding mz_format
  by_magic true unsupported mz file = ok macho64
  by_magic false true mz file = ok unsupported_macho
  by_magic false false true file = mz_format file
  by_magic false false false file = ok other

  unfoldable pub detect_binary_format : Bytes → Result BinaryFormat
  unfolding by_magic
  detect_binary_format file =
      by_magic (take 4 file == macho64_magic)
        (any (λ magic. take 4 file == magic) unsupported_magics) (take 2 file == codes "MZ") file

  module _ (digest : Digest) (json : HeaderJson) where
    read_in_format : Bytes → BinaryFormat → Result (Option RuntimeData)
    read_in_format file macho64 = formats.read_macho file
    read_in_format file unsupported_macho = err macho_unsupported
    read_in_format file pe = formats.read_pe file
    read_in_format file other =
        read_runtime_data_with_search_spec digest json file (whole_file file)

    unfoldable pub read_from_file : Bytes → Result (Option RuntimeData)
    unfolding read_in_format
    read_from_file file = do format ← detect_binary_format file; read_in_format file format

    write_in_format :
        Bytes → Text → Option BundleSource → PreparedRuntimeData → BinaryFormat → Result Bytes
    write_in_format file platform bundle prepared macho64 =
        formats.write_macho file bundle prepared platform
    write_in_format file platform bundle prepared unsupported_macho = err macho_unsupported
    write_in_format file platform bundle prepared pe =
        formats.write_pe file bundle prepared platform
    write_in_format file platform bundle prepared other =
        write_runtime_payload digest json file bundle prepared

    -- The bundle that is found in what was written, if there is one, has its digest.
    unfoldable pub verify_bundle : Bytes → ℕ → Option EmbeddedBundle → Result (Unit {0})
    unfolding hash_file_range
    verify_bundle written bundle_len none = check (nat_eq bundle_len 0) bundle_missing
    verify_bundle written bundle_len (some embedded) = do
      actual ← hash_file_range digest written embedded.offset embedded.len
      check (actual == embedded.sha256) bundle_mismatch

    module _ (headers : Comparable RuntimeDataHeader) where
      verify_found : RuntimeDataHeader → Bytes → ℕ → Option RuntimeData → Result (Unit {0})
      verify_found header written bundle_len none = err stamp_unread
      verify_found header written bundle_len (some found) = do
        check (headers.test found.header header) stamp_mismatch
        verify_bundle written bundle_len found.bundle

      -- What was written is read back before it replaces the template.
      unfoldable pub verify_written : RuntimeDataHeader → ℕ → Bytes → Result (Unit {0})
      unfolding verify_found
      verify_written header bundle_len written = do
        found ← read_from_file written
        verify_found header written bundle_len found

      -- The bytes that replace the template.
      unfoldable pub append_to_binary :
          Template → RuntimeDataHeader → Option BundleSource → Result Bytes
      unfolding hash_file_range write_in_format
      append_to_binary template header bundle = do
        prepared ← prepare digest json header bundle
        check (not template.is_symlink) template_link
        check template.is_regular template_irregular
        check template.opened_same template_replaced
        check template.unchanged template_changed
        copied_sha256 ← hash_file_range digest template.first 0 template.len
        source_sha256 ← hash_file_range digest template.second 0 template.len
        check (copied_sha256 == source_sha256) template_changed
        format ← detect_binary_format template.first
        written ← write_in_format template.first header.platform bundle prepared format
        verify_written header prepared.bundle_len written
        check template.output_same output_replaced
        check template.stamped_same template_replaced
        check template.persisted_same output_replaced
        ok written
