-- ===== src/RuntimeData/Header.antt =====
-- The header that is stamped on a runtime, of src/runtime_data.rs.
use conda_ship.Prelude.{
  ℕ, Bool, true, false, not, ◌&&◌, ◌||◌, Option, none, some, List, Text, ◌≡◌, ◌↔◌, Comparable,
  arith, is_some,
}

pub data UpdateOwnership : Type 0 where
  direct external : UpdateOwnership

unfoldable pub ownership_beq : UpdateOwnership → UpdateOwnership → Bool
ownership_beq direct direct = true
ownership_beq external external = true
ownership_beq _ _ = false

pub ownership_beq_iff : (a b : UpdateOwnership) → (ownership_beq a b ≡ true) ↔ (a ≡ b)
unfolding ownership_beq
ownership_beq_iff direct direct = ground arith
ownership_beq_iff direct external = ground arith
ownership_beq_iff external direct = ground arith
ownership_beq_iff external external = ground arith

instance abbrev pub ownership_eq : Comparable UpdateOwnership
ownership_eq = record { test = ownership_beq; test_iff = ownership_beq_iff }

pub data InstallScheme : Type 0 where
  conda_home user_data : InstallScheme

pub record RuntimeConfig : Type 0 where
  pub channels : List Text
  pub packages : List Text
  pub condarc : Option Text
  pub freeze_base : Bool

pub record RuntimeUpdateConfig : Type 0 where
  pub channel : Text
  pub package_name : Text
  pub build_number : ℕ
  pub compatibility_ownership : Option UpdateOwnership
  pub compatibility_instruction : Option Text

pub record RuntimeDataHeader : Type 0 where
  pub schema_version : ℕ
  pub artifact_name : Text
  pub runtime_name : Text
  pub runtime_version : Text
  pub artifact_layout : Text
  pub platform : Text
  pub embedded_artifact_name : Text
  pub delegate_executable : Text
  pub install_scheme : InstallScheme
  pub install_name : Text
  pub metadata_file : Text
  pub bundle_env_var : Text
  pub offline_env_var : Text
  pub docs_url : Text
  pub installer : Option Text
  pub update : Option RuntimeUpdateConfig
  pub runtime_config : RuntimeConfig
  pub runtime_lock : Text

abbrev owner_or_default : Option UpdateOwnership → UpdateOwnership
owner_or_default none = direct
owner_or_default (some o) = o

unfoldable pub initial_ownership : RuntimeUpdateConfig → UpdateOwnership
initial_ownership c = owner_or_default c.compatibility_ownership

unfoldable pub initial_instruction : RuntimeUpdateConfig → Option Text
initial_instruction c = c.compatibility_instruction

abbrev is_external : Option UpdateOwnership → Bool
is_external (some external) = true
is_external _ = false

unfoldable pub supports_direct_update : RuntimeUpdateConfig → Bool
supports_direct_update c =
    not (is_external c.compatibility_ownership) && not (is_some c.compatibility_instruction)

unfoldable pub has_compatibility_policy : RuntimeUpdateConfig → Bool
has_compatibility_policy c =
    is_some c.compatibility_ownership || is_some c.compatibility_instruction
