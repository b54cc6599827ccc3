-- ===== src/Lib.antt =====
-- conda-ship: single-file conda runtimes that install, update and recover themselves.
--
-- The program has two binaries. `cs` builds runtimes: it stamps a header, and an optional bundle of
-- packages, behind a template executable. The runtime reads the stamp of its own file, installs a
-- prefix, keeps a metadata file in it, and replaces its own executable when an update was approved.
-- The parts modelled here are those on which the safety of that replacement rests.
--
-- - Fs: the calls of std::fs that the program makes, on a map from paths to nodes. Every call can be
--   made to fail or to be the last one of the process; a write can be torn. `create_dir_all` is in
--   Directories. `Runs quiet s m Q E` says
--   what holds after code `m` on files `s`: with `quiet` no call is disturbed and the code must
--   succeed with `Q`; without it, `Q` holds on success and `E` of the files at any failure or crash.
-- - Config (src/config.rs): the metadata records and their checks (Metadata), the replacement of the
--   metadata file through a temporary file and a backup, and its recovery on reading (Store). `Settled`
--   and `Interrupted` are the two forms in which files hold metadata (Holds).
-- - BootstrapState (src/bootstrap_state.rs): the marker of an installation in progress (Marker), with
--   the files that hold it (Kept).
-- - ExecutableUpdate (src/executable_update.rs, src/bootstrap_lock.rs): the outcome and phase types
--   (Types), checks of one file and names beside the executable (Stamp), which version stands under
--   each name (Classify), the copy of a candidate (Staging), staging an update (Candidate), the
--   replacement (Protocol), approving, applying, recovering and discarding (Commands), the record
--   against the running executable (Ownership), installation records (Installation), the
--   coordinator's lock (UpdateLock). Setting describes one update and its states;
--   the other modules prove. The code is the one built outside Windows.
-- - RuntimeData (src/runtime_data.rs): the header (Header), numbers and ranges in a file (Binary), the
--   footer (Footer), the parts of a stamp and the search for it (Stamping), stamping a template and
--   reading a file by its format (Append), and the end of stamped PE files (Certificates). Located and
--   Roundtrip prove about files that are neither Mach-O nor PE.
-- - RuntimeUpdate (src/runtime_update.rs): packages of a channel (Packages), the selection of a
--   candidate (Select), its order (Order), the names it accepts (Filenames) and what it promises
--   (Newest); what a package holds
--   (Archive), the checks on one that was extracted (Extracted) and what they guarantee (Replacement);
--   the helper with the action that applies an update (Helper), and its runs (Applying).
-- - Cs (src/bin/cs/update_package.rs, src/bin/cs/artifact.rs): the names of artifacts (Names), the
--   artifact info with the checks against it (ArtifactInfo), and the update package (UpdatePackage).
--   PlainNames, Layout, Packaged, Matching, Accepted, Compared, Agreeing and Replaces follow a
--   package from there to the checks of the runtime.
-- - Http (src/http.rs): which addresses may be published.
-- - Commands (src/commands.rs, src/exec.rs): the delegate (Delegate, Executable), whether a prefix is
--   ready (Disposition), the installation (Bootstrap). States describes the states of a prefix;
--   Checks, Classified and Foreign prove about the first, Prepared, Recoverable, Fresh and Installed about
--   the second.
-- - Fleet (src/fleet.rs): the names of runtimes (Names), where they live (Paths) and which files
--   could meet (LastPart, Separation).
-- - Policy (src/policy.rs): the expansion of environment variables in a configured path.
-- - Hash (src/hash.rs): the hexadecimal form of digests.
-- - Examples: concrete inputs.
--
-- Functions keep the names of the source, with a field `package` called `package_name`, and the
-- outcome `None` called `unneeded`. Errors keep what callers tell apart, not their texts. SHA-256,
-- serde_json, the url and rattler libraries, the listing of directories, the installers (which also
-- write conda's history files and compile Python), the reader of stamps as updates use it,
-- the readers and writers of Mach-O and PE files, the comparison that Rust derives for headers,
-- `current_exe`, `canonicalize` and the answer of another process about the update lock are
-- parameters; JSON is assumed to read what it writes (of headers, those without the legacy update
-- policy), and a digest to have 32 bytes. No collision of digests is assumed away: the old and the
-- new digest are required to differ, which staging tests. While a process holds the bootstrap lock,
-- no other one is taken to write the files concerned.
--
-- The archive of an update package is the tree of files that is staged for it: `write_conda_package`
-- is a parameter, and extraction is taken to restore that tree.
--
-- `create_dir_all` makes the prefix in `write_installing_for`; where src/bootstrap_lock.rs and the
-- writers of the policy call it, its model is a call that can fail and changes nothing. When
-- `append_to_binary` stamps, the calls of the file system succeed, and what the tests of paths and
-- of open files find is given. `Path::join` takes any text for a metadata file, a delegate, a runtime
-- and the lock of updates; the names of files that updates make beside the executable, and those
-- that are constants of the source, are one component each.
--
-- `ensure_update_lock` starts over when another process creates its file first: its model takes
-- fuel for that, and no theorem uses it. `search_from` runs over the paddings 0 to alignment - 1,
-- so its count is exact. `walk_entries` has 1025 rounds for at most 1024 certificates.
-- `check_path` takes one more round than its text has bytes, since decoding shortens. `expand_from`
-- takes a round for each character of its text at most, and `decimal` a round for each digit, of
-- which a number n has at most n + 1. All other functions are structurally recursive.
--
-- Not modelled: the Windows worker, the Mach-O layout and the rest of the PE layout, permissions,
-- solving, downloading and linking of packages, process start, the other actions of the helper, the
-- cache of channel data, and the rest of the builder `cs`: its archives, lock files and bills of
-- materials.
pub mod Prelude
pub mod Fs
pub mod Hash
pub mod RuntimeData
pub mod Config
pub mod BootstrapState
pub mod ExecutableUpdate
pub mod RuntimeUpdate
pub mod Http
pub mod Commands
pub mod Fleet
pub mod Cs
pub mod Policy
pub mod Examples
