-- ===== src/ExecutableUpdate/Staging.antt =====
-- `stage_file`: the copy of a candidate beside the installed executable.
use conda_ship.Prelude.{Bool, true, false, Bytes, codes, ◌!=◌, list_eq, number_eq, ◌⊎◌, inl, inr}
use conda_ship.Fs.FilePath.{FilePath, with_extension, path_eq}
use conda_ship.Fs.Failure.{Failure, not_found, same_path}
use conda_ship.Fs.Calls.{
  M, ◌>>=◌, ◌>>◌, return, fail, guard, from_option, attempt, rename, remove_file, create_new,
  append, touch, read_file, symlink_metadata,
}
use conda_ship.ExecutableUpdate.Stamp.{regular_file_present}

remove_if : FilePath → Bool → M (Unit {0})
remove_if path true = remove_file path
remove_if path false = return tt

-- The body of the closure of `stage_file`. Permissions are not modelled: the call remains.
copy_file : Bytes → FilePath → FilePath → M (Unit {0})
copy_file input temporary candidate = do
  create_new temporary
  append temporary input
  touch
  touch
  touch
  rename temporary candidate
  touch

forget : FilePath → Failure ⊎ Unit {0} → M Bool
forget temporary (inr _) = return true
forget temporary (inl error) = do _ ← attempt (remove_file temporary); fail error

stage_new : FilePath → FilePath → FilePath → M Bool
stage_new source candidate target = do
  let temporary = with_extension candidate (codes "new.tmp")
  left ← regular_file_present temporary
  remove_if temporary left
  found ← symlink_metadata target
  _ ← from_option found not_found
  input ← read_file source
  copied ← attempt (copy_file input temporary candidate)
  forget temporary copied

unfoldable pub stage_file : FilePath → FilePath → FilePath → M Bool
unfolding remove_if copy_file forget stage_new
stage_file source candidate target = do
  guard (source != candidate) same_path
  present ← regular_file_present candidate
  elim present [ true ↦ return false | false ↦ stage_new source candidate target ]
