-- ===== src/Fs/Triple.antt =====
-- What holds after code that makes calls of the system: the statement, and the rules for it.
mod Core
mod Calls
unfoldable pub use Core.*
unfoldable pub use Calls.*
