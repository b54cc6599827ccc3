-- ===== src/Examples/Prefixes.antt =====
-- A prefix, its installation, and the theorems on them.
use conda_ship.Prelude.{
  ◌==◌, inr, Bool, true, false, none, some, [], ◌∷◌, ◌++◌, Bytes, codes, list_beq, list_eq,
  number_eq, eq_apart, ◌≡◌, ◌≢◌, refl, sym, ◌∙◌, ap, inl, split_on, is_control,
}
use conda_ship.Fs.FilePath.{FilePath, join, join_text, path_eq, path_beq, with_extension}
use conda_ship.Fs.Calls.{Files, return, file, directory, missing}
use conda_ship.Fs.Directories.{made, partly_made, obstructed, at}
use conda_ship.Fs.Triple.{Runs, bind, return-Runs}
use conda_ship.Config.Metadata.{installing}
use conda_ship.Config.Store.{
  metadata_path_for, temporary_metadata_path_for, backup_metadata_path_for,
}
use conda_ship.Config.Holds.{IsPlain}
use conda_ship.Config.Initial.{write_file, condarc_path, frozen_path}
use conda_ship.BootstrapState.Marker.{BootstrapState, current, path, temporary_path}
use conda_ship.BootstrapState.Kept.{Marks}
use conda_ship.Commands.Delegate.{executable_in_prefix, validate_executable_name}
use conda_ship.Commands.Disposition.{Surroundings, bootstrap_identity, prefix_disposition_for}
use conda_ship.Commands.States.{IsLaidOut, Shows, managed}
use conda_ship.Commands.Bootstrap.{
  Distribution, Installers, embedded_prefix_identity, put_packages, install_over,
}
use conda_ship.Commands.Foreign.{foreign_marker_refused}
use conda_ship.Commands.Prepared.{SameOutside, Keeps, none-Kept, IsKept, write_file-Runs}
use conda_ship.Commands.Recoverable.{identity, delegate, recorded_metadata, InstallsOver, IsSetUp}
use conda_ship.Commands.Fresh.{IsFresh, made_ready, Stopped}
use conda_ship.Commands.Installed.{install_over-Runs}
use conda_ship.Examples.Codec.{json}
use conda_ship.Examples.Updates.{prefix, metadata_file, tree, distinct}
use conda_ship.Examples.Markers.{state_json, render_state, parse_render}

pub true-false : {A : Type 0} → false ≡ true → A
true-false e = absurd (cc e)

-- A listing that finds entries everywhere.
abbrev around : Surroundings
around = record {
  json = json;
  state_json = state_json;
  directories = record { is_empty = λ s d. false; empty-missing = λ s d e name. true-false e };
}

abbrev distribution : Distribution
distribution = record {
  display_name = codes "demo";
  install_name = codes "demo";
  metadata_file = metadata_file;
  runtime_version = codes "1.0";
  delegate_executable = codes "conda";
  update = none;
  channels = [];
  packages = [];
  condarc = some (1 ∷ []);
  frozen = none;
  lock = some [];
}

abbrev conda_path : FilePath
conda_path = join (join prefix (codes "bin")) (codes "conda")

-- The installation writes the delegate.
abbrev by : Installers
by = record {
  from_bundle = λ dir offline reinstall. return tt;
  from_embedded = none;
  from_cache = λ reinstall. return tt;
  from_channels = λ reinstall. write_file conda_path (7 ∷ []);
  write_prefix_metadata = return tt;
  compile_python_bytecode = return tt;
}

laid : IsLaidOut around prefix (embedded_prefix_identity distribution)
unfolding join_text split_on embedded_prefix_identity path temporary_path metadata_path_for
    temporary_metadata_path_for backup_metadata_path_for with_extension path_beq list_beq
laid = record {
  entry = refl;
  distinct = distinct;
  marker_tmp = eq_apart _ _ refl;
  marker_metadata = eq_apart _ _ refl;
  marker_temporary = eq_apart _ _ refl;
  marker_backup = eq_apart _ _ refl;
  tmp_metadata = eq_apart _ _ refl;
  tmp_temporary = eq_apart _ _ refl;
  tmp_backup = eq_apart _ _ refl;
}

delegate_path : executable_in_prefix prefix (codes "conda") ≡ conda_path
unfolding executable_in_prefix join_text split_on list_beq
delegate_path = refl

abbrev Kept : FilePath → Type 0
Kept = IsKept around prefix (embedded_prefix_identity distribution)

-- What the tests of the paths find.
delegate_apart : ¬ Kept conda_path
unfolding join_text split_on embedded_prefix_identity path temporary_path metadata_path_for
    temporary_metadata_path_for backup_metadata_path_for with_extension path_beq list_beq
delegate_apart =
    none-Kept around prefix (embedded_prefix_identity distribution) _ (eq_apart _ _ refl)
      (eq_apart _ _ refl) (eq_apart _ _ refl) (eq_apart _ _ refl) (eq_apart _ _ refl)
      (eq_apart _ _ refl)

condarc_apart : ¬ Kept (condarc_path prefix)
unfolding join_text split_on embedded_prefix_identity path temporary_path metadata_path_for
    temporary_metadata_path_for backup_metadata_path_for with_extension path_beq list_beq
    condarc_path
condarc_apart =
    none-Kept around prefix (embedded_prefix_identity distribution) _ (eq_apart _ _ refl)
      (eq_apart _ _ refl) (eq_apart _ _ refl) (eq_apart _ _ refl) (eq_apart _ _ refl)
      (eq_apart _ _ refl)

frozen_apart : ¬ Kept (frozen_path prefix)
unfolding join_text split_on embedded_prefix_identity path temporary_path metadata_path_for
    temporary_metadata_path_for backup_metadata_path_for with_extension path_beq list_beq
    frozen_path
frozen_apart =
    none-Kept around prefix (embedded_prefix_identity distribution) _ (eq_apart _ _ refl)
      (eq_apart _ _ refl) (eq_apart _ _ refl) (eq_apart _ _ refl) (eq_apart _ _ refl)
      (eq_apart _ _ refl)

set_up : IsSetUp around by distribution prefix
unfolding validate_executable_name is_control path_beq list_beq condarc_path frozen_path
    executable_in_prefix join_text split_on
set_up = record {
  laid = laid;
  named = refl;
  condarc_apart = condarc_apart;
  frozen_apart = frozen_apart;
  delegate_condarc = eq_apart conda_path (condarc_path prefix) refl;
  delegate_frozen = eq_apart conda_path (frozen_path prefix) refl;
  frozen_condarc = eq_apart (frozen_path prefix) (condarc_path prefix) refl;
}

-- Nothing is there, and the directory of the prefix has yet to be made.
abbrev new_files : Files
new_files = tree []

abbrev made_files : Files
made_files = made_ready around by distribution prefix set_up new_files

untouched :
    (p : FilePath)
    → (p == prefix) ≡ false
    → (p == join (at true []) (codes "home")) ≡ false
    → (p == join (join (at true []) (codes "home")) (codes ".conda")) ≡ false
    → made_files p ≡ missing
unfolding partly_made made path_beq list_beq
untouched p a b c = rw (a, b, c) refl

fresh : IsFresh around by distribution prefix set_up new_files
unfolding join_text split_on embedded_prefix_identity path temporary_path metadata_path_for
    temporary_metadata_path_for backup_metadata_path_for with_extension path_beq list_beq obstructed
fresh = record {
  marker_plain = inl refl;
  marker_tmp_plain = inl refl;
  gone = refl;
  tmp_plain = inl refl;
  bak_plain = inl refl;
  there = inr (refl, refl, refl);
}

-- Beside the delegate's file the installation changes nothing.
put_conda :
    {quiet : Bool} (t : Files)
    → SameOutside around prefix (embedded_prefix_identity distribution) made_files t
    → Runs quiet t
        (put_packages by none false false)
        (λ _ u.
          Keeps around prefix (embedded_prefix_identity distribution) t u
          × ((b : Bytes) × (u (delegate around by distribution prefix) ≡ file b))
          × IsPlain (u (condarc_path prefix))
          × IsPlain (u (frozen_path prefix)))
        (Keeps around prefix (embedded_prefix_identity distribution) t)
unfolding put_packages path_beq list_beq condarc_path frozen_path
put_conda t outside =
    bind _
      (write_file-Runs conda_path (7 ∷ [])
        (inl (outside _ delegate_apart ∙ untouched conda_path refl refl refl))
        λ u same q kept. same q (λ e. delegate_apart (rw (sym e) kept)))
      λ _ u (at, same). return-Runs tt (
        (λ q kept. same q (λ e. delegate_apart (rw (sym e) kept))),
        (7 ∷ [], ap u delegate_path ∙ at),
        inl (
            same _ (eq_apart (condarc_path prefix) conda_path refl)
            ∙ (outside _ condarc_apart ∙ untouched (condarc_path prefix) refl refl refl)),
        inl (
            same _ (eq_apart (frozen_path prefix) conda_path refl)
            ∙ (outside _ frozen_apart ∙ untouched (frozen_path prefix) refl refl refl)),
      )

installs : InstallsOver around by distribution prefix made_files none false false
installs = record { put = put_conda; compile = λ t. return-Runs tt ((λ q k. refl), refl) }

install_over-Runs_example :
    Runs true new_files
      (install_over around by distribution prefix none false false)
      (λ _ t.
        Shows around prefix
          (identity around by distribution prefix)
          (managed (recorded_metadata around by distribution prefix))
          t)
      (Stopped around by distribution prefix set_up new_files)
install_over-Runs_example =
    install_over-Runs around by distribution prefix set_up none false false fresh installs

abbrev own : BootstrapState
own = current installing (bootstrap_identity (embedded_prefix_identity distribution))

abbrev foreign : BootstrapState
foreign = record {
  schema_version = 1;
  state = installing;
  display_name = codes "other";
  install_name = codes "demo";
  metadata_file = metadata_file;
}

abbrev files_marked : BootstrapState → Files
files_marked m =
    tree ((path prefix, file (render_state m ++ b'\n' ∷ [])) ∷ (prefix, directory) ∷ [])

marks :
    (m : BootstrapState) → Marks state_json (path prefix) (temporary_path prefix) (files_marked m) m
unfolding path temporary_path path_beq list_beq
marks m = inl (record {
  bytes = render_state m ++ b'\n' ∷ [];
  at_path = refl;
  parsed = parse_render m;
  tmp_plain = inl refl;
})

foreign_other : foreign ≢ own
unfolding current bootstrap_identity embedded_prefix_identity list_beq
foreign_other e = eq_apart (codes "other") (codes "demo") refl (ap (λ m. m.display_name) e)

foreign_marker_refused_example :
    Runs false
      (files_marked foreign)
      (prefix_disposition_for around prefix (embedded_prefix_identity distribution) true)
      (λ r t. ⊥)
      (λ t. t ≡ files_marked foreign)
foreign_marker_refused_example =
    foreign_marker_refused around prefix (embedded_prefix_identity distribution) foreign true
      (marks foreign) foreign_other
