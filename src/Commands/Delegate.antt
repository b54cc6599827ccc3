-- ===== src/Commands/Delegate.antt =====
-- The executable that the runtime hands over to: src/exec.rs, as it is built outside Windows.
use conda_ship.Prelude.{
  not, ◌||◌, List, [], ◌∷◌, Text, codes, any, is_empty, contains, is_control, ◌==◌, list_eq,
  number_eq,
}
use conda_ship.Fs.FilePath.{FilePath, join, join_text}
use conda_ship.Fs.Failure.{invalid_delegate, delegate_missing}
use conda_ship.Fs.Checked.{Checked, require, lift}
use conda_ship.Fs.Calls.{M, ◌>>=◌, ◌>>◌, guard, is_file}

unfoldable pub executable_in_prefix : FilePath → Text → FilePath
executable_in_prefix prefix executable = join_text (join prefix (codes "bin")) executable

unfoldable pub validate_executable_name : Text → Checked (Unit {0})
validate_executable_name executable =
    require
      (not (
        is_empty executable
        || ((executable == codes ".")
            || ((executable == codes "..")
                || (contains b'/' executable
                    || (contains b'\\' executable || any is_control executable))))))
      invalid_delegate

unfoldable pub validate_delegate : FilePath → Text → M (Unit {0})
unfolding executable_in_prefix validate_executable_name
validate_delegate prefix delegate = do
  lift (validate_executable_name delegate)
  present ← is_file (executable_in_prefix prefix delegate)
  guard present delegate_missing

unfoldable pub prefix_path_entries : FilePath → List FilePath
prefix_path_entries prefix = join prefix (codes "bin") ∷ join prefix (codes "condabin") ∷ []
