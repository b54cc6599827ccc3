-- ===== src/RuntimeData/Roundtrip.antt =====
-- Stamping against reading: `append_to_binary` and `read_from_path` of src/runtime_data.rs, for a
-- template that is neither Mach-O nor PE.
use conda_ship.Prelude.{
  ◌+◌, ◌≤◌, ℕ, zero, suc, Bool, true, false, Option, none, some, [], ◌∷◌, ◌++◌, Bytes, length, take,
  append-nil, ◌≡◌, ◌∙◌, refl, sym, ap, ltb, if◌then◌else◌, list_eq, number_eq, ==-refl, arith,
  Comparable,
}
use conda_ship.Hash.{Digest}
use conda_ship.RuntimeData.Header.{RuntimeDataHeader}
use conda_ship.RuntimeData.Result.{Result, ok, err, ◌>>=◌, invalid_pe, check}
use conda_ship.RuntimeData.Binary.{read_exact, read_exact-middle}
use conda_ship.RuntimeData.Stamping.{
  HeaderJson, BundleSource, EmbeddedBundle, RuntimeData, copied_from, bundle_len_of,
}
use conda_ship.RuntimeData.Append.{
  pe, other, Formats, Template, by_magic, detect_binary_format, hash_file_range, read_from_file,
  verify_bundle, verify_written, append_to_binary,
}
use conda_ship.RuntimeData.Located.{
  IsWritable, stamped_bytes, footer_bytes, bundle_told, prepare-prepared, write-content, copied_len,
  read-bundle, read-stamped,
}

-- A template that stays as it was opened while it is stamped, and that is neither Mach-O nor PE by
-- its first four bytes.
pub record IsStableTemplate (formats : Formats) (template : Template) : Type 0 where
  pub not_link : template.is_symlink ≡ false
  pub regular : template.is_regular ≡ true
  pub opened : template.opened_same ≡ true
  pub complete : length template.first ≡ template.len
  pub same : template.second ≡ template.first
  pub steady : template.unchanged ≡ true
  pub output : template.output_same ≡ true
  pub stamped : template.stamped_same ≡ true
  pub persisted : template.persisted_same ≡ true
  pub long : 4 ≤ template.len
  pub plain : detect_binary_format formats template.first ≡ ok other

take_front_append : (n : ℕ) (s t : Bytes) → n ≤ length s → take n (s ++ t) ≡ take n s
take_front_append zero s t h = refl
take_front_append (suc n) [] t h = absurd (omega (arith, h))
take_front_append (suc n) (c ∷ s) t h = ap (λ r. c ∷ r) (take_front_append n s t (omega (arith, h)))

module _ (formats : Formats) where
  -- Where the first bytes stay, a file stays neither Mach-O nor PE.
  by_magic-other :
      (macho unsupported mz : Bool) (s t : Bytes)
      → by_magic formats macho unsupported mz s ≡ ok other
      → by_magic formats macho unsupported mz t ≡ ok other
  unfolding by_magic
  by_magic-other true unsupported mz s t h = h
  by_magic-other false true mz s t h = h
  by_magic-other false false true s t h = absurd (pe_is_not (formats.is_pe s) h)
    where
      pe_is_not :
          (r : Result Bool) → (r >>= λ found. check found invalid_pe >>= λ _. ok pe) ≡ ok other → ⊥
      pe_is_not (ok true) h = absurd (cc h)
      pe_is_not (ok false) h = absurd (cc h)
      pe_is_not (err e) h = absurd (cc h)
  by_magic-other false false false s t h = refl

  detect-append :
      (s t : Bytes)
      → 4 ≤ length s
      → detect_binary_format formats s ≡ ok other
      → detect_binary_format formats (s ++ t) ≡ ok other
  unfolding detect_binary_format
  detect-append s t long h =
      rw (take_front_append 4 s t long, take_front_append 2 s t (omega (arith, long)))
        (by_magic-other _ _ _ s (s ++ t) h)

-- The whole of a file is hashed.
hash-whole :
    (digest : Digest) (s : Bytes) (n : ℕ)
    → length s ≡ n
    → hash_file_range digest s 0 n ≡ ok (digest.sha256 s)
unfolding hash_file_range
hash-whole digest s n h =
    let e : read_exact (s ++ []) 0 n ≡ ok s = read_exact-middle [] s [] 0 n refl h in
    rw (← append-nil s) (rw e (ap (λ t. ok (digest.sha256 t)) (sym (append-nil s))))

-- What the reader of the range of an embedded bundle gets; nothing where there is none.
abbrev pub bytes_of : Bytes → Option EmbeddedBundle → Result Bytes
bytes_of file none = ok []
bytes_of file (some embedded) = read_exact file embedded.offset embedded.len

abbrev pub bundle_bytes : Bytes → Option RuntimeData → Result Bytes
bundle_bytes file none = ok []
bundle_bytes file (some found) = bytes_of file found.bundle

module _ (formats : Formats) (digest : Digest) (json : HeaderJson)
    (headers : Comparable RuntimeDataHeader) (template : Template) (header : RuntimeDataHeader)
    (bundle : Option BundleSource) where
  module _ (t : IsStableTemplate formats template) (w : IsWritable digest json header bundle) where
    abbrev written : Bytes
    written = stamped_bytes digest json template.first header bundle

    abbrev told : Option EmbeddedBundle
    told = bundle_told digest json template.first header bundle w

    read-written :
        read_from_file formats digest json written
        ≡ ok (some (record { header = header; bundle = told; stamped = true }))
    unfolding read_from_file
    read-written =
        let plain =
          detect-append formats template.first
            ((json.render header ++ copied_from bundle)
              ++ footer_bytes digest json template.first header bundle)
            (omega (arith, t.complete, t.long)) t.plain in
        rw plain (read-stamped digest json template.first header bundle w)

    abbrev place : EmbeddedBundle
    place = record {
      offset = length template.first + length (json.render header);
      len = bundle_len_of bundle;
      sha256 = digest.sha256 (copied_from bundle);
    }

    in_range : read_exact written place.offset place.len ≡ ok (copied_from bundle)
    in_range = read-bundle digest json template.first header bundle w _ refl

    empty : ltb 0 (bundle_len_of bundle) ≡ false → bundle_len_of bundle ≡ 0
    empty h = ground arith

    nothing : (s : Bytes) → length s ≡ 0 → s ≡ []
    nothing [] h = refl
    nothing (c ∷ s) h = absurd (omega (arith, h))

    -- What is said of the bundle of what was written, where there is one and where there is none.
    by_told :
        (P : Option EmbeddedBundle → Type 0)
        → P (some place)
        → (bundle_len_of bundle ≡ 0 → P none)
        → P told
    by_told P h k = sort (ltb 0 (bundle_len_of bundle)) refl
      where
        sort : (b : Bool) → ltb 0 (bundle_len_of bundle) ≡ b → P (if b then some place else none)
        sort true e = h
        sort false e = k (empty e)

    verify-told : verify_bundle formats digest json written (bundle_len_of bundle) told ≡ ok tt
    unfolding verify_bundle hash_file_range
    verify-told =
        by_told (λ m. verify_bundle formats digest json written (bundle_len_of bundle) m ≡ ok tt)
          (rw (in_range, ==-refl (digest.sha256 (copied_from bundle))) refl) (λ e. rw e refl)

    told-bytes : bytes_of written told ≡ ok (copied_from bundle)
    told-bytes =
        by_told (λ m. bytes_of written m ≡ ok (copied_from bundle)) in_range
          (λ e. ap ok (
            sym (
              nothing (copied_from bundle)
                (copied_len digest json template.first header bundle w.stable ∙ e))))

    verify-lem :
        verify_written formats digest json headers header (bundle_len_of bundle) written ≡ ok tt
    unfolding verify_written
    verify-lem = rw (read-written, (headers.test_iff header header).1 refl) verify-told

    append-stamped :
        append_to_binary formats digest json headers template header bundle ≡ ok written
    unfolding append_to_binary
    append-stamped =
        rw
          (
            prepare-prepared digest json template.first header bundle w,
            t.not_link,
            t.regular,
            t.opened,
            t.steady,
            t.same,
            hash-whole digest template.first template.len t.complete,
            ==-refl (digest.sha256 template.first),
            t.plain,
            write-content digest json template.first header bundle w,
            verify-lem,
            t.output,
            t.stamped,
            t.persisted,
          )
          refl

    -- A template that is neither Mach-O nor PE and has four bytes or more is stamped, within the
    -- limits and with a header that has no legacy update policy, and the reader of the stamped file
    -- finds the header that was given and the place, length and digest of the bundle. Neither the
    -- template nor the bundle is changed or replaced meanwhile.
    pub stamp_roundtrip :
        (append_to_binary formats digest json headers template header bundle >>= λ stamped.
        read_from_file formats digest json stamped)
        ≡ ok (some (record { header = header; bundle = told; stamped = true }))
    stamp_roundtrip = rw append-stamped read-written

    -- The range that the reader of a stamped file is told holds the bundle, byte for byte, and the
    -- executable in front of the stamp is as it was. The template is neither Mach-O nor PE, and the
    -- other conditions are those of stamping.
    pub stamp_bundle :
        ((append_to_binary formats digest json headers template header bundle >>= λ stamped.
        read_from_file formats digest json stamped >>= λ found. bundle_bytes stamped found)
          ≡ ok (copied_from bundle))
        × ((append_to_binary formats digest json headers template header bundle >>= λ stamped.
              read_exact stamped 0 (length template.first))
            ≡ ok template.first)
    stamp_bundle = (
      rw append-stamped (rw read-written told-bytes),
      rw append-stamped (
          read_exact-middle [] template.first
            ((json.render header ++ copied_from bundle)
              ++ footer_bytes digest json template.first header bundle)
            0 (length template.first) refl refl),
    )
