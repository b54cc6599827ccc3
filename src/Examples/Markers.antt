-- ===== src/Examples/Markers.antt =====
-- A marker of an installation, and the theorems on markers for it.
use conda_ship.Prelude.{
  true, false, Option, none, some, [], ◌∷◌, ◌++◌, Bytes, codes, ◌≡◌, ◌≢◌, ◌⊎◌, inl, refl, list_beq,
  take, eq_apart,
}
use conda_ship.Fs.FilePath.{path_beq, path_eq}
use conda_ship.Fs.Failure.{unparsable, io_failed}
use conda_ship.Fs.Calls.{Files, file, ◌>>=◌, ◌>>◌, from_option, fine, fails, crashes, crash, err}
use conda_ship.Fs.Triple.{Runs, start}
use conda_ship.Config.Metadata.{installing}
use conda_ship.BootstrapState.Marker.{
  BootstrapState, BootstrapIdentity, StateJson, current, path, temporary_path, read_state_at,
  write_state_at, validate_identity_for,
}
use conda_ship.BootstrapState.Kept.{
  IsMarked, Marks, marker_survives, marker_accepted, interrupted_marker_refused,
}
use conda_ship.Examples.Codec.{Codec, number, via, both, text, bootstrap, first_of, get_n, put_all}
use conda_ship.Examples.Updates.{prefix, tree}

abbrev pub state_codec : Codec BootstrapState
state_codec =
    via (λ m. (m.schema_version, (m.state, (m.display_name, (m.install_name, m.metadata_file)))))
      (λ (a, (b, (c, (d, e)))). record {
        schema_version = a;
        state = b;
        display_name = c;
        install_name = d;
        metadata_file = e;
      })
      (both number (both bootstrap (both text (both text text)))) (λ m. refl)

unfoldable pub parse_state : Bytes → Option BootstrapState
parse_state s = first_of (state_codec.get s)

pub render_state : BootstrapState → Bytes
render_state m = state_codec.put m

pub parse_render : (m : BootstrapState) → parse_state (render_state m ++ b'\n' ∷ []) ≡ some m
unfolding parse_state render_state
parse_render m = rw (state_codec.get-put m (b'\n' ∷ [])) refl

abbrev pub state_json : StateJson
state_json = record { parse = parse_state; render = render_state; parse-render = parse_render }

empty_unparsed : state_json.parse [] ≡ none
unfolding parse_state
empty_unparsed = refl

abbrev identity : BootstrapIdentity
identity = record {
  display_name = codes "demo";
  install_name = codes "demo";
  metadata_file = codes ".demo.json";
}

abbrev old_state : BootstrapState
old_state = record {
  schema_version = 1;
  state = installing;
  display_name = codes "demo";
  install_name = codes "demo";
  metadata_file = codes ".other.json";
}

apart : path prefix ≢ temporary_path prefix
unfolding path temporary_path path_beq list_beq
apart = eq_apart _ _ refl

abbrev empty_files : Files
empty_files = tree []

abbrev marked_files : Files
marked_files = tree ((path prefix, file (state_json.render old_state ++ b'\n' ∷ [])) ∷ [])

marked : IsMarked state_json (path prefix) (temporary_path prefix) marked_files old_state
unfolding path temporary_path path_beq list_beq
marked = record {
  bytes = state_json.render old_state ++ b'\n' ∷ [];
  at_path = refl;
  parsed = state_json.parse-render old_state;
  tmp_plain = inl refl;
}

marker_survives_example :
    Runs false marked_files
      (write_state_at state_json
        (path prefix)
        (temporary_path prefix)
        (current installing identity))
      (λ _ t.
        IsMarked state_json (path prefix) (temporary_path prefix) t (current installing identity))
      (λ t.
        Marks state_json (path prefix) (temporary_path prefix) t old_state
        ⊎ Marks state_json (path prefix) (temporary_path prefix) t (current installing identity))
marker_survives_example =
    marker_survives state_json (path prefix) (temporary_path prefix) apart {quiet = false} old_state
      (current installing identity) marked

marker_accepted_example :
    Runs true empty_files
      (write_state_at state_json (path prefix) (temporary_path prefix) (current installing identity)
        >> (read_state_at state_json (path prefix) (temporary_path prefix) >>= λ found.
            from_option found unparsable >>= λ state. validate_identity_for state identity))
      (λ _ t.
        IsMarked state_json (path prefix) (temporary_path prefix) t (current installing identity))
      (λ t. Unit {0})
marker_accepted_example =
    marker_accepted state_json (path prefix) (temporary_path prefix) apart identity (inl refl)
      (inl refl)

torn_unparsed : parse_state (take 2 (render_state (current installing identity))) ≡ none
unfolding parse_state render_state current get_n put_all
torn_unparsed = refl

interrupted_marker_refused_example :
    (t : Files) × (write_state_at state_json
        (path prefix)
        (temporary_path prefix)
        (current installing identity)
        (start empty_files (fine ∷ fine ∷ crashes 2 ∷ []))
      ≡ crash (start t []))
    × (write_state_at state_json
          (path prefix)
          (temporary_path prefix)
          (current installing identity)
          (start empty_files (fine ∷ fine ∷ fails 2 ∷ []))
        ≡ err io_failed (start t []))
    × Runs false t
        (read_state_at state_json (path prefix) (temporary_path prefix))
        (λ r u. ⊥)
        (λ u. u ≡ t)
interrupted_marker_refused_example =
    interrupted_marker_refused state_json (path prefix) (temporary_path prefix) apart empty_files
      (current installing identity) 2 refl refl torn_unparsed
