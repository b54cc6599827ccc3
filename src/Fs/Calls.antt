-- ===== src/Fs/Calls.antt =====
-- The calls of `std::fs`, and the monad of code that makes them.
use conda_ship.Prelude.{
  ℕ, Bool, true, false, Option, none, some, List, [], ◌∷◌, ◌++◌, Bytes, take, ◌==◌, if◌then◌else◌,
  ◌⊎◌, inl, inr, ◌≡◌, ◌≢◌, ◌∙◌, ==-refl, ==-ne,
}
use conda_ship.Fs.FilePath.{FilePath, path_eq}
use conda_ship.Fs.Failure.{Failure, io_failed, not_found, already_exists}

-- `link p` is a symbolic link that leads to `p`.
pub data Node : Type 0 where
  missing directory : Node
  file : Bytes → Node
  link : FilePath → Node

abbrev pub Files : Type 0
Files = FilePath → Node

-- `fails n` and `crashes n`: a write has written `n` bytes before.
pub data Fault : Type 0 where
  fine : Fault
  fails crashes : ℕ → Fault

-- The calls beyond the end of the schedule work.
pub record World : Type 0 where
  pub files : Files
  pub faults : List Fault

pub data Outcome (A : Type 0) : Type 0 where
  ok : A → World → Outcome A
  err : Failure → World → Outcome A
  crash : World → Outcome A

abbrev pub M : Type 0 → Type 0
M A = World → Outcome A

infixl 5 ◌>>=◌ ◌>>◌
unfoldable pub ◌>>=◌ : {A B : Type 0} → M A → (A → M B) → M B
◌>>=◌ m f w = elim (m w) [ ok a w' ↦ f a w' | err e w' ↦ err e w' | crash w' ↦ crash w' ]

abbrev pub ◌>>◌ : {B : Type 0} → M (Unit {0}) → M B → M B
m >> k = m >>= λ _. k

abbrev pub return : {A : Type 0} → A → M A
return a w = ok a w

abbrev pub fail : {A : Type 0} → Failure → M A
fail e w = err e w

abbrev pub guard : Bool → Failure → M (Unit {0})
guard true e = return tt
guard false e = fail e

abbrev pub from_option : {A : Type 0} → Option A → Failure → M A
from_option none e = fail e
from_option (some a) e = return a

-- The result of a call as a value, for a `match` on it.
unfoldable pub attempt : {A : Type 0} → M A → M (Failure ⊎ A)
attempt m w = elim (m w) [
  | ok a w' ↦ ok (inr a) w'
  | err e w' ↦ ok (inl e) w'
  | crash w' ↦ crash w'
]

-- What the system answers when it is not disturbed.
pub data Answer (A : Type 0) : Type 0 where
  done : A → Files → Answer A
  refused : Failure → Answer A

abbrev pub settle : {A : Type 0} → Files → List Fault → Answer A → Outcome A
settle s rest (done a s') = ok a (record { files = s'; faults = rest })
settle s rest (refused e) = err e (record { files = s; faults = rest })

-- `torn n` is the effect of a call that is cut short.
abbrev pub strike :
    {A : Type 0} → (ℕ → Files → Files) → (Files → Answer A) → Files → List Fault → Outcome A
strike torn act s [] = settle s [] (act s)
strike torn act s (fine ∷ rest) = settle s rest (act s)
strike torn act s (fails n ∷ rest) = err io_failed (record { files = torn n s; faults = rest })
strike torn act s (crashes n ∷ rest) = crash (record { files = torn n s; faults = rest })

unfoldable pub syscall : {A : Type 0} → (ℕ → Files → Files) → (Files → Answer A) → M A
syscall torn act w = strike torn act w.files w.faults

abbrev pub whole : ℕ → Files → Files
whole n s = s

abbrev pub put : FilePath → Node → Files → Files
put p n s q = if q == p then n else s q

-- The kinds that `symlink_metadata` tells apart.
pub data Kind : Type 0 where
  regular irregular : Kind

abbrev pub kind : Node → Option Kind
kind missing = none
kind directory = some irregular
kind (file _) = some regular
kind (link _) = some irregular

abbrev pub is_regular : Kind → Bool
is_regular regular = true
is_regular irregular = false

-- `symlink_metadata`; `none` is the error NotFound.
unfoldable pub symlink_metadata : FilePath → M (Option Kind)
symlink_metadata p = syscall whole (λ s. done (kind (s p)) s)

-- What a path that may be a link leads to.
abbrev pub follow : Files → FilePath → Node
follow s p = elim (s p) [
  | missing ↦ missing
  | directory ↦ directory
  | file b ↦ file b
  | link q ↦ s q
]

abbrev pub read_answer : Files → Node → Answer Bytes
read_answer s (file b) = done b s
read_answer s missing = refused not_found
read_answer s directory = refused io_failed
read_answer s (link q) = refused io_failed

-- `File::open` and reading to the end.
unfoldable pub read_file : FilePath → M Bytes
read_file p = syscall whole (λ s. read_answer s (follow s p))

abbrev pub there : Files → Node → Answer Bool
there s missing = done false s
there s _ = done true s

abbrev pub or_false : Failure ⊎ Bool → Bool
or_false (inl e) = false
or_false (inr b) = b

-- `Path::exists`: an error counts as no.
unfoldable pub exists : FilePath → M Bool
exists p = do seen ← attempt (syscall whole (λ s. there s (follow s p))); return (or_false seen)

abbrev pub file_there : Files → Node → Answer Bool
file_there s (file _) = done true s
file_there s _ = done false s

-- `Path::is_file`, which follows links.
unfoldable pub is_file : FilePath → M Bool
is_file p = do
  seen ← attempt (syscall whole (λ s. file_there s (follow s p)))
  return (or_false seen)

abbrev pub directory_there : Files → Node → Answer Bool
directory_there s directory = done true s
directory_there s _ = done false s

-- `Path::is_dir`, which follows links.
unfoldable pub is_dir : FilePath → M Bool
is_dir p = do
  seen ← attempt (syscall whole (λ s. directory_there s (follow s p)))
  return (or_false seen)

abbrev pub move : FilePath → FilePath → Node → Node → Files → Answer (Unit {0})
move p q missing _ s = refused not_found
move p q _ directory s = refused io_failed
move p q n _ s = done tt (put q n (put p missing s))

unfoldable pub rename : FilePath → FilePath → M (Unit {0})
rename p q = syscall whole (λ s. move p q (s p) (s q) s)

abbrev pub unlink : FilePath → Node → Files → Answer (Unit {0})
unlink p missing s = refused not_found
unlink p directory s = refused io_failed
unlink p _ s = done tt (put p missing s)

unfoldable pub remove_file : FilePath → M (Unit {0})
remove_file p = syscall whole (λ s. unlink p (s p) s)

abbrev pub make : FilePath → Node → Files → Answer (Unit {0})
make p missing s = done tt (put p (file []) s)
make p _ s = refused already_exists

-- `OpenOptions::create_new`
unfoldable pub create_new : FilePath → M (Unit {0})
create_new p = syscall whole (λ s. make p (s p) s)

abbrev pub make_or_truncate : FilePath → Node → Files → Answer (Unit {0})
make_or_truncate p missing s = done tt (put p (file []) s)
make_or_truncate p (file _) s = done tt (put p (file []) s)
make_or_truncate p (link q) s = done tt (put q (file []) s)
make_or_truncate p directory s = refused io_failed

-- `File::create`
unfoldable pub create : FilePath → M (Unit {0})
create p = syscall whole (λ s. make_or_truncate p (s p) s)

abbrev pub extend : FilePath → Node → Bytes → Files → Files
extend p (file old) b s = put p (file (old ++ b)) s
extend p _ b s = s

-- `write_all` on a file that this process has created.
unfoldable pub append : FilePath → Bytes → M (Unit {0})
append p b = syscall (λ n s. extend p (s p) (take n b) s) (λ s. done tt (extend p (s p) b s))

-- A call whose only effect is to fail or to succeed: `flush`, `sync_all`, `set_permissions`.
unfoldable pub touch : M (Unit {0})
touch = syscall whole (λ s. done tt s)

module _ (n : Node) (s : Files) where
  pub put_self : (p : FilePath) → put p n s p ≡ n
  put_self p = rw (==-refl p)

  pub put_ne : (p q : FilePath) → q ≢ p → put p n s q ≡ s q
  put_ne p q h = rw (==-ne q p h)

-- The files after a rename of a regular file.
unfoldable pub moved : FilePath → FilePath → Bytes → Files → Files
moved p q b s = put q (file b) (put p missing s)

module _ (p q : FilePath) (b : Bytes) (s : Files) where
  pub moved_to : moved p q b s q ≡ file b
  unfolding moved
  moved_to = put_self (file b) (put p missing s) q

  pub moved_from : p ≢ q → moved p q b s p ≡ missing
  unfolding moved
  moved_from h = put_ne (file b) (put p missing s) q p h ∙ put_self missing s p

  pub moved_else : (r : FilePath) → r ≢ p → r ≢ q → moved p q b s r ≡ s r
  unfolding moved
  moved_else r h k = put_ne (file b) (put p missing s) q r k ∙ put_ne missing s p r h
