-- ===== src/Examples/Stamps.antt =====
-- A header, a bundle and a file to stamp, and the theorems on stamps for them.
use Prim.Native.Nat.{ℕ, zero, suc}
use conda_ship.Prelude.{
  ◌%◌, ◌≢◌, ◌<◌, false, ◌+◌, ◌≤◌, true, Option, none, some, Comparable, list_beq, list_beq_iff,
  list_eq, number_eq, [], ◌∷◌, Bytes, codes, length, replicate, ◌≡◌, refl, arith, ap, ◌∙◌, sym,
  append-nil,
}
use conda_ship.RuntimeData.Header.{
  has_compatibility_policy, RuntimeDataHeader, RuntimeUpdateConfig, RuntimeConfig, InstallScheme,
  conda_home, user_data,
}
use conda_ship.RuntimeData.Certificates.{
  pe_runtime_content_layout, layout_lem, validate_pe_certificate_table, certificate_walk_ends,
}
use conda_ship.RuntimeData.Result.{err, out_of_fuel, ok, ◌>>=◌}
use conda_ship.RuntimeData.Binary.{read_exact}
use conda_ship.RuntimeData.Footer.{
  DecodedFooter, Fits, encoded, decode_footer, decode_footer-encode_footer,
}
use conda_ship.RuntimeData.Stamping.{HeaderJson, BundleSource}
use conda_ship.RuntimeData.Append.{
  Formats, Template, detect_binary_format, read_from_file, append_to_binary,
}
use conda_ship.RuntimeData.Located.{IsWritable, bundle_told}
use conda_ship.RuntimeData.Roundtrip.{IsStableTemplate, bundle_bytes, stamp_roundtrip, stamp_bundle}
use conda_ship.Examples.Codec.{
  Codec, number, via, both, list, option, text, bool, ownership, first_of, put_all,
}
use conda_ship.Examples.Updates.{digest, header_of, update_config}

abbrev scheme_to : InstallScheme → ℕ
scheme_to conda_home = 0
scheme_to user_data = 1

abbrev scheme_from : ℕ → InstallScheme
scheme_from zero = conda_home
scheme_from (suc _) = user_data

scheme_lem : (s : InstallScheme) → scheme_from (scheme_to s) ≡ s
scheme_lem conda_home = refl
scheme_lem user_data = refl

abbrev config : Codec RuntimeConfig
config =
    via (λ c. (c.channels, (c.packages, (c.condarc, c.freeze_base))))
      (λ (a, (b, (c, d))). record { channels = a; packages = b; condarc = c; freeze_base = d })
      (both (list text) (both (list text) (both (option text) bool))) (λ c. refl)

abbrev update_config_codec : Codec RuntimeUpdateConfig
update_config_codec =
    via
      (λ c. (
        c.channel,
        (
          c.package_name,
          (c.build_number, (c.compatibility_ownership, c.compatibility_instruction)),
        ),
      ))
      (λ (a, (b, (c, (d, e)))). record {
        channel = a;
        package_name = b;
        build_number = c;
        compatibility_ownership = d;
        compatibility_instruction = e;
      })
      (both text (both text (both number (both (option ownership) (option text))))) (λ c. refl)

abbrev header_codec : Codec RuntimeDataHeader
header_codec =
    via
      (λ h. (
        h.schema_version,
        (
          h.artifact_name,
          (
            h.runtime_name,
            (
              h.runtime_version,
              (
                h.artifact_layout,
                (
                  h.platform,
                  (
                    h.embedded_artifact_name,
                    (
                      h.delegate_executable,
                      (
                        h.install_scheme,
                        (
                          h.install_name,
                          (
                            h.metadata_file,
                            (
                              h.bundle_env_var,
                              (
                                h.offline_env_var,
                                (
                                  h.docs_url,
                                  (h.installer, (h.update, (h.runtime_config, h.runtime_lock))),
                                ),
                              ),
                            ),
                          ),
                        ),
                      ),
                    ),
                  ),
                ),
              ),
            ),
          ),
        ),
      ))
      (λ (a, (b, (c, (d, (e, (f, (g, (h, (i, (j, (k, (l, (m, (n, (o, (p, (q, r))))))))))))))))).
        record {
          schema_version = a;
          artifact_name = b;
          runtime_name = c;
          runtime_version = d;
          artifact_layout = e;
          platform = f;
          embedded_artifact_name = g;
          delegate_executable = h;
          install_scheme = i;
          install_name = j;
          metadata_file = k;
          bundle_env_var = l;
          offline_env_var = m;
          docs_url = n;
          installer = o;
          update = p;
          runtime_config = q;
          runtime_lock = r;
        })
      (both number (
        both text (
          both text (
            both text (
              both text (
                both text (
                  both text (
                    both text (
                      both (via scheme_to scheme_from number scheme_lem) (
                        both text (
                          both text (
                            both text (
                              both text (
                                both text (
                                  both (option text) (
                                    both (option update_config_codec)
                                      (both config text)))))))))))))))))
      (λ h. refl)

unfoldable parse_header : Bytes → Option RuntimeDataHeader
parse_header s = first_of (header_codec.get s)

unfoldable render_header : RuntimeDataHeader → Bytes
render_header h = header_codec.put h

parse_render : (h : RuntimeDataHeader) → parse_header (render_header h) ≡ some h
unfolding parse_header render_header
parse_render h =
    ap (λ s. first_of (header_codec.get s)) (sym (append-nil (header_codec.put h)))
    ∙ ap first_of (header_codec.get-put h [])

header_json : HeaderJson
header_json = record {
  parse = parse_header;
  render = render_header;
  parse-render = λ h _ _. parse_render h;
}

abbrev demo_header : RuntimeDataHeader
demo_header = header_of (codes "1.0")

demo_header_size : length (header_json.render demo_header) ≤ 1000
unfolding header_json render_header put_all
demo_header_size = omega arith

abbrev executable_bytes : Bytes
executable_bytes = 127 ∷ 69 ∷ 76 ∷ 70 ∷ []

abbrev bundle : BundleSource
bundle = record {
  len = 3;
  first = 7 ∷ 8 ∷ 9 ∷ [];
  second = 7 ∷ 8 ∷ 9 ∷ [];
  unchanged_first = true;
  unchanged_second = true;
}

no_policy : has_compatibility_policy update_config ≡ false
unfolding has_compatibility_policy
no_policy = refl

writable : IsWritable digest header_json demo_header (some bundle)
writable = record {
  schema = refl;
  header_small = omega (arith, demo_header_size);
  in_range = omega (arith, demo_header_size);
  current = (no_policy, omega arith);
  stable = record { complete = refl; same = refl; before = refl; after = refl };
}

-- No file is Mach-O or PE for these.
abbrev formats : Formats
formats = record {
  is_pe = λ file. ok false;
  read_macho = λ file. ok none;
  read_pe = λ file. ok none;
  write_macho = λ file source prepared platform. ok file;
  write_pe = λ file source prepared platform. ok file;
}

rendered_same : (h k : RuntimeDataHeader) → render_header h ≡ render_header k → h ≡ k
rendered_same h k e = some_inj (sym (parse_render h) ∙ (ap parse_header e ∙ parse_render k))
  where
    some_inj : {a b : RuntimeDataHeader} → some a ≡ some b → a ≡ b
    some_inj e = cc e

-- Headers are equal where their JSON is.
abbrev headers : Comparable RuntimeDataHeader
headers = record {
  test = λ h k. list_beq (render_header h) (render_header k);
  test_iff = λ h k. (
    λ e. rendered_same h k ((list_beq_iff (render_header h) (render_header k)).0 e),
    λ e. (list_beq_iff (render_header h) (render_header k)).1 (ap render_header e),
  );
}

abbrev template : Template
template = record {
  is_symlink = false;
  is_regular = true;
  opened_same = true;
  len = 4;
  first = executable_bytes;
  second = executable_bytes;
  unchanged = true;
  output_same = true;
  stamped_same = true;
  persisted_same = true;
}

stable : IsStableTemplate formats template
unfolding detect_binary_format list_beq
stable = record {
  not_link = refl;
  regular = refl;
  opened = refl;
  complete = refl;
  same = refl;
  steady = refl;
  output = refl;
  stamped = refl;
  persisted = refl;
  long = omega arith;
  plain = refl;
}

stamp_roundtrip_example :
    (append_to_binary formats digest header_json headers template demo_header (some bundle)
      >>= λ stamped. read_from_file formats digest header_json stamped)
    ≡ ok (
        some (record {
          header = demo_header;
          bundle =
              bundle_told digest header_json executable_bytes demo_header (some bundle) writable;
          stamped = true;
        }))
stamp_roundtrip_example =
    stamp_roundtrip formats digest header_json headers template demo_header (some bundle) stable
      writable

stamp_bundle_example :
    ((append_to_binary formats digest header_json headers template demo_header (some bundle)
        >>= λ stamped. read_from_file formats digest header_json stamped >>= λ found.
            bundle_bytes stamped found)
      ≡ ok (7 ∷ 8 ∷ 9 ∷ []))
    × ((append_to_binary formats digest header_json headers template demo_header (some bundle)
          >>= λ stamped. read_exact stamped 0 (length executable_bytes))
        ≡ ok executable_bytes)
stamp_bundle_example =
    stamp_bundle formats digest header_json headers template demo_header (some bundle) stable
      writable

abbrev footer : DecodedFooter
footer = record {
  header_len = 300;
  bundle_len = 70000;
  header_sha256 = replicate 32 5;
  bundle_sha256 = replicate 32 6;
}

footer_fits : Fits footer
footer_fits = record {
  header_fits = omega arith;
  bundle_fits = omega arith;
  header_digest = refl;
  bundle_digest = refl;
}

decode_footer-encode_footer_example : decode_footer (encoded footer footer_fits) ≡ ok (some footer)
decode_footer-encode_footer_example = decode_footer-encode_footer footer footer_fits

layout_lem_example :
    (start : ℕ) × (stop : ℕ) × (pe_runtime_content_layout 1024 301 ≡ ok (start, stop))
    × (start + 301 ≡ stop)
    × (1024 ≤ start)
    × (start < 1024 + 8)
    × (stop % 8 ≡ 0)
layout_lem_example = layout_lem 1024 301 (omega arith)

certificate_walk_ends_example :
    validate_pe_certificate_table (replicate 16 9) 0 16 ≢ err out_of_fuel
certificate_walk_ends_example = certificate_walk_ends (replicate 16 9) 0 16
