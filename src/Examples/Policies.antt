-- ===== src/Examples/Policies.antt =====
-- The expansion of paths, on concrete texts.
use conda_ship.Prelude.{
  Option, none, some, Text, codes, ◌≡◌, ◌==◌, list_eq, number_eq, refl, if◌then◌else◌, list_beq,
}
use conda_ship.Policy.{expand_env_vars, expand_env_vars_total, expand_plain, expand_from}

abbrev home_only : Text → Option Text
home_only name = if name == codes "HOME" then some (codes "/h") else none

expands_all_forms :
    expand_env_vars home_only (codes "$HOME/${HOME}x/%HOME%/$NONE/50%")
    ≡ some (codes "/h//hx//h/$NONE/50%")
unfolding expand_env_vars expand_from list_beq
expands_all_forms = refl

expand_env_vars_total_example : (t : Text) × (expand_env_vars home_only (codes "a$HOME") ≡ some t)
expand_env_vars_total_example = expand_env_vars_total home_only (codes "a$HOME")

expand_plain_example : expand_env_vars home_only (codes "/opt/demo") ≡ some (codes "/opt/demo")
expand_plain_example = expand_plain home_only (codes "/opt/demo") refl
