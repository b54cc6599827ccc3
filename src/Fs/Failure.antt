-- ===== src/Fs/Failure.antt =====
-- The errors of the modelled components. The texts of messages are dropped, and what the callers
-- tell apart is kept.

pub data Failure : Type 0 where
  -- the system's
  io_failed not_found already_exists : Failure
  -- a node that must be a regular file, or a directory
  not_regular not_directory : Failure
  -- paths
  no_parent no_file_name not_absolute : Failure
  -- runtime metadata and bootstrap state
  wrong_metadata_file unparsable wrong_schema wrong_display_name wrong_install_name : Failure
  bootstrap_incomplete invalid_phase : Failure
  -- executable updates
  not_configured externally_managed incomplete_metadata invalid_digest : Failure
  already_pending identical_executable backup_exists same_path : Failure
  digest_mismatch not_stamped stamp_mismatch stamp_unreadable bundle_corrupt : Failure
  nothing_pending not_approved unrecoverable neither_digest : Failure
  replacement_pending source_changed changed_outside : Failure
  invalid_installation direct_with_instruction blank_instruction : Failure
  external_is_final installation_changed path_changed instruction_changed not_running : Failure
  lock_not_file invalid_metadata_name would_block : Failure
  -- a link that leads nowhere, and a race that was lost too often
  unresolved lock_raced : Failure
  -- the coordination of updates
  lock_not_held recovery_completed unknown_action nothing_staged previous_restored : Failure
  unexpected_outcome not_selected no_longer_available selection_changed : Failure
  variable_missing variable_empty variable_invalid invalid_ownership : Failure
  invalid_package_name invalid_version wrong_platform invalid_channel downgraded : Failure
  size_missing digest_missing invalid_filename size_mismatch package_mismatch : Failure
  payload_count payload_invalid wrong_layout has_credentials has_query : Failure
  -- runtimes in prefixes
  empty_name invalid_start invalid_character dotted_name blank_version blank_lock : Failure
  invalid_lock invalid_specs invalid_condarc blank_installer : Failure
  no_delegate delegate_conflict invalid_delegate delegate_missing unmanaged : Failure
  bundle_missing dangerous_path no_lock : Failure
