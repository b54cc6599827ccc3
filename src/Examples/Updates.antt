-- ===== src/Examples/Updates.antt =====
-- A runtime with an update that is approved, and the theorems of the update on its files.
use conda_ship.Prelude.{
  ℕ, ◌%◌, true, false, none, some, List, [], ◌∷◌, ◌++◌, Text, Bytes, codes, replicate, ◌≡◌, ◌≢◌,
  inl, refl, ◌==◌, list_eq, number_eq, nat_eq, if◌then◌else◌, list_beq, arith, eq_apart, split_on,
}
use conda_ship.Hash.{hex, is_sha256-hex, Digest, AreBytes}
use conda_ship.Fs.FilePath.{FilePath, file_name, path_eq, path_beq, with_extension, join_text}
use conda_ship.Fs.Calls.{Files, Node, missing, file}
use conda_ship.RuntimeData.Header.{RuntimeDataHeader, RuntimeUpdateConfig, direct, conda_home}
use conda_ship.Config.Metadata.{PendingExecutablePhase, PrefixMetadata, BootstrapPhase}
use conda_ship.Config.Store.{
  metadata_path_for, temporary_metadata_path_for, backup_metadata_path_for,
}
use conda_ship.Config.Holds.{AreDistinct}
use conda_ship.ExecutableUpdate.Types.{Host, Stamp, stamped}
use conda_ship.ExecutableUpdate.Stamp.{adjacent_name, stamp_matches}
use conda_ship.ExecutableUpdate.Facts.{Verified}
use conda_ship.ExecutableUpdate.Setting.{
  Selection, Places, IsSound, AreApart, OldInPlace, InProgress, approved, pending_meta,
  candidate_of, backup_of, target_of, RecordsSettled,
}
use conda_ship.Examples.Codec.{json}

-- A digest of 32 bytes.
abbrev first_byte : Bytes → ℕ
first_byte [] = 0
first_byte (b ∷ _) = b

pub zeros : (n : ℕ) → AreBytes (replicate n 0)
zeros Prim.Native.Nat.zero = tt
zeros (Prim.Native.Nat.suc n) = (omega arith, zeros n)

abbrev pub digest : Digest
digest = record {
  sha256 = λ b. (first_byte b % 256) ∷ replicate 31 0;
  sha256_bytes = λ b. (omega arith, zeros 31);
  length-sha256 = λ b. refl;
}

abbrev pub old_file : Bytes
old_file = 1 ∷ []

abbrev pub new_file : Bytes
new_file = 2 ∷ []

abbrev pub old_digest : Text
old_digest = hex (digest.sha256 old_file)

abbrev pub new_digest : Text
new_digest = hex (digest.sha256 new_file)

abbrev pub update_config : RuntimeUpdateConfig
update_config = record {
  channel = codes "demo-channel";
  package_name = codes "demo-runtime";
  build_number = 0;
  compatibility_ownership = none;
  compatibility_instruction = none;
}

abbrev pub header_of : Text → RuntimeDataHeader
header_of version = record {
  schema_version = 1;
  artifact_name = codes "demo";
  runtime_name = codes "demo";
  runtime_version = version;
  artifact_layout = codes "online";
  platform = codes "linux-64";
  embedded_artifact_name = [];
  delegate_executable = codes "conda";
  install_scheme = conda_home;
  install_name = codes "demo";
  metadata_file = codes ".demo.json";
  bundle_env_var = [];
  offline_env_var = [];
  docs_url = [];
  installer = none;
  update = some update_config;
  runtime_config = record { channels = []; packages = []; condarc = none; freeze_base = false };
  runtime_lock = [];
}

abbrev stamp_by : ℕ → Stamp
stamp_by n =
    if nat_eq n 1
    then stamped (header_of (codes "1.0")) none
    else stamped (header_of (codes "2.0")) none

abbrev pub host : Host
host = record {
  json = json;
  digest = digest;
  stamp = λ b. stamp_by (first_byte b);
  current_stamped = false;
  current_header = header_of (codes "1.0");
  update_lock_held = true;
  current_exe = none;
  canonicalize = λ p. none;
}

abbrev pub prefix : FilePath
prefix = record { rooted = true; parts = codes "demo" ∷ codes ".conda" ∷ codes "home" ∷ [] }

abbrev pub metadata_file : Text
metadata_file = codes ".demo.json"

abbrev pub executable : FilePath
executable = record { rooted = true; parts = codes "demo" ∷ codes "bin" ∷ [] }

abbrev pub selection : Selection
selection = record {
  base = record {
    schema_version = 1;
    display_name = codes "demo";
    install_name = codes "demo";
    metadata_file = metadata_file;
    version = codes "1.0";
    delegate_executable = none;
    lock_sha256 = none;
    channels = [];
    packages = [];
    bootstrap_state = BootstrapPhase.ready;
    update = none;
  };
  installed = record {
    executable = executable;
    ownership = direct;
    installation = none;
    artifact_name = codes "demo";
    channel = codes "demo-channel";
    package_name = codes "demo-runtime";
    build_number = 0;
    sha256 = old_digest;
    instruction = none;
    pending = none;
  };
  version = codes "2.0";
  build_number = 1;
  digest = new_digest;
}

pub distinct :
    AreDistinct
      (metadata_path_for prefix metadata_file)
      (temporary_metadata_path_for prefix metadata_file)
      (backup_metadata_path_for prefix metadata_file)
unfolding join_text split_on metadata_path_for temporary_metadata_path_for backup_metadata_path_for
    with_extension path_beq list_beq
distinct = record {
  path_tmp = eq_apart _ _ refl;
  path_bak = eq_apart _ _ refl;
  tmp_bak = eq_apart _ _ refl;
}

pub prefix_named_lem : file_name prefix ≡ some (codes "demo")
unfolding list_beq
prefix_named_lem = refl

pub executable_named_lem : file_name executable ≡ some (codes "demo")
unfolding list_beq
executable_named_lem = refl

abbrev pub places : Places prefix metadata_file selection
places = record {
  prefix_parent = record { rooted = true; parts = codes ".conda" ∷ codes "home" ∷ [] };
  prefix_name = codes "demo";
  prefix_above = refl;
  prefix_named = prefix_named_lem;
  directory = record { rooted = true; parts = codes "bin" ∷ [] };
  name = codes "demo";
  above = refl;
  named = executable_named_lem;
  distinct = distinct;
}

apart_from :
    (q path tmp bak : FilePath)
    → (q == path) ≡ false
    → (q == tmp) ≡ false
    → (q == bak) ≡ false
    → AreApart q path tmp bak
apart_from q path tmp bak a b c = record {
  not_path = eq_apart _ _ a;
  not_tmp = eq_apart _ _ b;
  not_bak = eq_apart _ _ c;
}

pub old-Verified :
    Verified host selection.base selection.installed old_file (codes "1.0") old_digest
unfolding stamp_matches list_beq
old-Verified = record {
  hashed = refl;
  valid = is_sha256-hex digest old_file;
  header = header_of (codes "1.0");
  bundle = none;
  read = refl;
  matched = refl;
  bundle_whole = tt;
}

pub new-Verified :
    Verified host selection.base selection.installed new_file (codes "2.0") new_digest
unfolding stamp_matches list_beq
new-Verified = record {
  hashed = refl;
  valid = is_sha256-hex digest new_file;
  header = header_of (codes "2.0");
  bundle = none;
  read = refl;
  matched = refl;
  bundle_whole = tt;
}

pub digests_differ : new_digest ≢ old_digest
unfolding hex list_beq
digests_differ = eq_apart _ _ refl

pub target_apart :
    AreApart
      (target_of selection)
      (metadata_path_for prefix metadata_file)
      (temporary_metadata_path_for prefix metadata_file)
      (backup_metadata_path_for prefix metadata_file)
unfolding join_text split_on metadata_path_for temporary_metadata_path_for backup_metadata_path_for
    with_extension path_beq list_beq
target_apart = apart_from _ _ _ _ refl refl refl

pub candidate_apart :
    AreApart
      (candidate_of places)
      (metadata_path_for prefix metadata_file)
      (temporary_metadata_path_for prefix metadata_file)
      (backup_metadata_path_for prefix metadata_file)
unfolding join_text split_on metadata_path_for temporary_metadata_path_for backup_metadata_path_for
    with_extension path_beq list_beq adjacent_name
candidate_apart = apart_from _ _ _ _ refl refl refl

pub backup_apart :
    AreApart
      (backup_of places)
      (metadata_path_for prefix metadata_file)
      (temporary_metadata_path_for prefix metadata_file)
      (backup_metadata_path_for prefix metadata_file)
unfolding join_text split_on metadata_path_for temporary_metadata_path_for backup_metadata_path_for
    with_extension path_beq list_beq adjacent_name
backup_apart = apart_from _ _ _ _ refl refl refl

abbrev pub sound : IsSound host prefix metadata_file selection places
sound = record {
  owned = refl;
  absolute = refl;
  complete = refl;
  schema = refl;
  is_ready = refl;
  same_file = refl;
  current = inl refl;
  differ = digests_differ;
  old_bytes = old_file;
  new_bytes = new_file;
  old_verified = old-Verified;
  new_verified = new-Verified;
  target_apart = target_apart;
  candidate_apart = candidate_apart;
  backup_apart = backup_apart;
}

-- The files of a runtime.
abbrev pub tree : List (FilePath × Node) → Files
tree [] q = missing
tree ((p, n) ∷ rest) q = if q == p then n else tree rest q

abbrev pub recorded_bytes : PrefixMetadata → Bytes
recorded_bytes m = json.render m ++ b'\n' ∷ []

-- The metadata says `phase`, and the candidate stands beside the old executable.
abbrev pub files_at : PendingExecutablePhase → Files
files_at phase = tree (
    (metadata_path_for prefix metadata_file, file (recorded_bytes (pending_meta selection phase)))
    ∷ (executable, file old_file)
    ∷ (candidate_of places, file new_file)
    ∷ [])

pub files_at-Settled :
    (phase : PendingExecutablePhase)
    → RecordsSettled host prefix metadata_file selection places sound
        (files_at phase)
        (pending_meta selection phase)
unfolding join_text split_on metadata_path_for temporary_metadata_path_for backup_metadata_path_for
    with_extension path_beq list_beq adjacent_name
files_at-Settled phase = record {
  bytes = recorded_bytes (pending_meta selection phase);
  at_path = refl;
  parsed = json.parse-render (pending_meta selection phase);
  tmp_plain = inl refl;
  bak_plain = inl refl;
}

pub files_at-OldInPlace :
    (phase : PendingExecutablePhase)
    → OldInPlace host prefix metadata_file selection places sound (files_at phase)
unfolding join_text split_on metadata_path_for path_beq list_beq adjacent_name hex
files_at-OldInPlace phase = record { target = refl; candidate = refl; backup = refl }

pub files_ready :
    InProgress host prefix metadata_file selection places sound
      (files_at PendingExecutablePhase.ready)
files_ready =
    approved (inl (files_at-Settled PendingExecutablePhase.ready))
      (files_at-OldInPlace PendingExecutablePhase.ready)
