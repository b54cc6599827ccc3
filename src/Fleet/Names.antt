-- ===== src/Fleet/Names.antt =====
-- The names of runtimes, commands and shims in src/fleet.rs, and the paths made of them.
use conda_ship.Prelude.{
  ℕ, Bool, not, ◌||◌, [], ◌∷◌, ◌++◌, Text, codes, all, is_ascii_alphanumeric, nat_eq, ◌==◌, list_eq,
  number_eq,
}
use conda_ship.Fs.FilePath.{FilePath, join_text}
use conda_ship.Fs.Failure.{empty_name, invalid_start, invalid_character, dotted_name}
use conda_ship.Fs.Checked.{Checked, accepted, rejected, ◌>>◌, require}

abbrev pub is_name_char : ℕ → Bool
is_name_char c = is_ascii_alphanumeric c || (nat_eq c b'-' || (nat_eq c b'_' || nat_eq c b'.'))

unfoldable pub validate_safe_name : Text → Checked (Unit {0})
validate_safe_name [] = rejected empty_name
validate_safe_name (first ∷ rest) = do
  require (is_ascii_alphanumeric first) invalid_start
  require (all is_name_char rest) invalid_character
  require (not ((first ∷ rest == codes ".") || (first ∷ rest == codes ".."))) dotted_name

unfoldable pub validate_runtime_id : Text → Checked (Unit {0})
unfolding validate_safe_name
validate_runtime_id id = validate_safe_name id

unfoldable pub validate_command_name : Text → Checked (Unit {0})
unfolding validate_safe_name
validate_command_name name = validate_safe_name name

unfoldable pub validate_shim_name : Text → Checked (Unit {0})
unfolding validate_safe_name
validate_shim_name name = validate_safe_name name

unfoldable pub metadata_file_for : Text → Text
metadata_file_for id = b'.' ∷ (id ++ codes ".json")

unfoldable pub prefix_for : FilePath → Text → Checked FilePath
unfolding validate_runtime_id
prefix_for install_root id = do validate_runtime_id id; accepted (join_text install_root id)
