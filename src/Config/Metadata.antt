-- ===== src/Config/Metadata.antt =====
-- The records of src/config.rs with their derived equality, and the checks on what was read.
use conda_ship.Prelude.{
  ℕ, Bool, Option, List, Text, ◌==◌, number_eq, list_eq, option_eq, Comparable, true, false, ◌&&◌,
  ◌≡◌, ◌↔◌, arith, list_beq, option_beq, list_beq_iff, option_beq_iff, ==-refl, &&-eq-true,
}
use conda_ship.Fs.FilePath.{FilePath, path_eq, path_beq, path_beq_iff}
use conda_ship.Fs.Failure.{
  wrong_schema, wrong_display_name, wrong_install_name, wrong_metadata_file, bootstrap_incomplete,
}
use conda_ship.RuntimeData.Header.{UpdateOwnership, ownership_eq, ownership_beq, ownership_beq_iff}
use conda_ship.Fs.Calls.{M, ◌>>◌, guard}

pub data BootstrapPhase : Type 0 where
  installing ready : BootstrapPhase

pub data PendingExecutablePhase : Type 0 where
  staged ready replacing cleanup : PendingExecutablePhase

unfoldable pub phase_beq : PendingExecutablePhase → PendingExecutablePhase → Bool
phase_beq PendingExecutablePhase.staged PendingExecutablePhase.staged = true
phase_beq PendingExecutablePhase.ready PendingExecutablePhase.ready = true
phase_beq PendingExecutablePhase.replacing PendingExecutablePhase.replacing = true
phase_beq PendingExecutablePhase.cleanup PendingExecutablePhase.cleanup = true
phase_beq _ _ = false

phase_beq_refl : (a : PendingExecutablePhase) → phase_beq a a ≡ true
unfolding phase_beq
phase_beq_refl PendingExecutablePhase.staged = ground arith
phase_beq_refl _ = ground arith

phase_eq_of_beq : (a b : PendingExecutablePhase) → phase_beq a b ≡ true → a ≡ b
unfolding phase_beq
phase_eq_of_beq a b h = ground arith

pub phase_beq_iff : (a b : PendingExecutablePhase) → (phase_beq a b ≡ true) ↔ (a ≡ b)
phase_beq_iff a b = (phase_eq_of_beq a b, λ e. cc (e, phase_beq_refl b))

instance abbrev pub phase_eq : Comparable PendingExecutablePhase
phase_eq = record { test = phase_beq; test_iff = phase_beq_iff }

pub record PendingExecutableUpdate : Type 0 where
  pub phase : PendingExecutablePhase
  pub version : Text
  pub build_number : ℕ
  pub executable_sha256 : Text

unfoldable pub pending_beq : PendingExecutableUpdate → PendingExecutableUpdate → Bool
unfolding phase_beq list_beq
pending_beq a b =
    (a.phase == b.phase)
    && ((a.version == b.version)
        && ((a.build_number == b.build_number) && (a.executable_sha256 == b.executable_sha256)))

pub pending_beq_iff : (a b : PendingExecutableUpdate) → (pending_beq a b ≡ true) ↔ (a ≡ b)
unfolding pending_beq
pending_beq_iff a b = ground (
  arith,
  phase_beq_iff a.phase b.phase,
  list_beq_iff a.version b.version,
  list_beq_iff a.executable_sha256 b.executable_sha256,
)

instance abbrev pub pending_eq : Comparable PendingExecutableUpdate
pending_eq = record { test = pending_beq; test_iff = pending_beq_iff }

pub record ExecutableUpdateMetadata : Type 0 where
  pub executable : FilePath
  pub ownership : UpdateOwnership
  pub installation : Option Text
  pub artifact_name : Text
  pub channel : Text
  pub package_name : Text
  pub build_number : ℕ
  pub sha256 : Text
  pub instruction : Option Text
  pub pending : Option PendingExecutableUpdate

-- The derived comparison goes through the fields in order.
who_beq : ExecutableUpdateMetadata → ExecutableUpdateMetadata → Bool
who_beq a b =
    (a.executable == b.executable)
    && ((a.ownership == b.ownership)
        && ((a.installation == b.installation)
            && ((a.artifact_name == b.artifact_name) && (a.channel == b.channel))))

what_beq : ExecutableUpdateMetadata → ExecutableUpdateMetadata → Bool
what_beq a b =
    (a.package_name == b.package_name)
    && ((a.build_number == b.build_number)
        && ((a.sha256 == b.sha256)
            && ((a.instruction == b.instruction) && (a.pending == b.pending))))

unfoldable pub update_beq : ExecutableUpdateMetadata → ExecutableUpdateMetadata → Bool
unfolding who_beq what_beq pending_beq path_beq ownership_beq list_beq option_beq
update_beq a b = who_beq a b && what_beq a b

update_beq_refl : (a : ExecutableUpdateMetadata) → update_beq a a ≡ true
unfolding update_beq
update_beq_refl a = simp (
  ==-refl a.executable,
  ==-refl a.ownership,
  ==-refl a.installation,
  ==-refl a.artifact_name,
  ==-refl a.channel,
  ==-refl a.package_name,
  ==-refl a.build_number,
  ==-refl a.sha256,
  ==-refl a.instruction,
  ==-refl a.pending,
)

module _ (a b : ExecutableUpdateMetadata) where
  who_eq :
      who_beq a b ≡ true
      → (a.executable ≡ b.executable)
        × (a.ownership ≡ b.ownership)
        × (a.installation ≡ b.installation)
        × (a.artifact_name ≡ b.artifact_name)
        × (a.channel ≡ b.channel)
  unfolding who_beq
  who_eq h = ground (
    arith,
    path_beq_iff a.executable b.executable,
    ownership_beq_iff a.ownership b.ownership,
    option_beq_iff a.installation b.installation,
    list_beq_iff a.artifact_name b.artifact_name,
    list_beq_iff a.channel b.channel,
  )

  what_eq :
      what_beq a b ≡ true
      → (a.package_name ≡ b.package_name)
        × (a.build_number ≡ b.build_number)
        × (a.sha256 ≡ b.sha256)
        × (a.instruction ≡ b.instruction)
        × (a.pending ≡ b.pending)
  unfolding what_beq
  what_eq h = ground (
    arith,
    list_beq_iff a.package_name b.package_name,
    list_beq_iff a.sha256 b.sha256,
    option_beq_iff a.instruction b.instruction,
    option_beq_iff a.pending b.pending,
  )

update_beq_halves :
    (a b : ExecutableUpdateMetadata)
    → update_beq a b ≡ true
    → (who_beq a b ≡ true) × (what_beq a b ≡ true)
unfolding update_beq
update_beq_halves a b h = &&-eq-true h

update_eq_of_beq : (a b : ExecutableUpdateMetadata) → update_beq a b ≡ true → a ≡ b
update_eq_of_beq a b h =
    let (who, what) = update_beq_halves a b h in
    let (p, q, r, t, u) = who_eq a b who in
    let (v, w, x, y, z) = what_eq a b what in
    λ i. record {
      executable = p i;
      ownership = q i;
      installation = r i;
      artifact_name = t i;
      channel = u i;
      package_name = v i;
      build_number = w i;
      sha256 = x i;
      instruction = y i;
      pending = z i;
    }

pub update_beq_iff : (a b : ExecutableUpdateMetadata) → (update_beq a b ≡ true) ↔ (a ≡ b)
update_beq_iff a b = (update_eq_of_beq a b, λ e. cc (e, update_beq_refl a))

instance abbrev pub update_eq : Comparable ExecutableUpdateMetadata
update_eq = record { test = update_beq; test_iff = update_beq_iff }

pub record PrefixMetadata : Type 0 where
  pub schema_version : ℕ
  pub display_name : Text
  pub install_name : Text
  pub metadata_file : Text
  pub version : Text
  pub delegate_executable : Option Text
  pub lock_sha256 : Option Text
  pub channels : List Text
  pub packages : List Text
  pub bootstrap_state : BootstrapPhase
  pub update : Option ExecutableUpdateMetadata

abbrev pub prefix_metadata_schema_version : ℕ
prefix_metadata_schema_version = 1

abbrev pub is_ready : BootstrapPhase → Bool
is_ready installing = false
is_ready BootstrapPhase.ready = true

unfoldable pub validate_metadata_identity_for : PrefixMetadata → Text → Text → Text → M (Unit {0})
validate_metadata_identity_for meta display_name install_name metadata_file = do
  guard (meta.schema_version == prefix_metadata_schema_version) wrong_schema
  guard (meta.display_name == display_name) wrong_display_name
  guard (meta.install_name == install_name) wrong_install_name
  guard (meta.metadata_file == metadata_file) wrong_metadata_file

unfoldable pub validate_metadata_ready_for : PrefixMetadata → Text → Text → Text → M (Unit {0})
validate_metadata_ready_for meta display_name install_name metadata_file = do
  validate_metadata_identity_for meta display_name install_name metadata_file
  guard (is_ready meta.bootstrap_state) bootstrap_incomplete
