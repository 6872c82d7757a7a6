-- ===== src/Migration/Errors.antt =====
-- migration/migration.go: its errors, one constructor for each message, with what the message names.
-- `context_ended`, `external` and the like carry the number of an error made outside the package.
use fit_go.Base.{ℕ, Text}

pub data Error : Type 0 where
  no_migrations irreversible_target : Error
  invalid_id invalid_number : Text → Error
  no_up duplicate_id : Text → Error
  nil_store nil_locker lease_needs_fenced_store : Error
  fencing_not_implemented fencing_needs_lease : Error
  invalid_fencing : ℕ → Error
  duplicate_persisted duplicate_skipped duplicate_checksum : Text → Error
  invalid_persisted invalid_skipped invalid_checksum_key : Text → Error → Error
  invalid_last : Error → Error
  invalid_node_migration : Text → Error → Error
  invalid_node_last : Error → Error
  duplicate_node_migration : Text → Error
  normalize_failed : Error → Error
  context_ended : ℕ → Error
  external : ℕ → Error
  not_compiled checksum_changed skipped_not_applied checksum_not_compiled : Text → Error
  from_after_to version_not_registered target_not_registered : Text → Error
  revert_target_required : Error
  irreversible : Text → Error
  up_failed up_lease_lost up_checkpoint_failed : Text → Error → Error
  down_failed down_lease_lost down_checkpoint_failed : Text → Error → Error
  skip_save_failed : Text → Error → Error
  baseline_save_failed : Error → Error
  fenced_needs_store fencing_needs_token : Error
  lease_failed lock_failed unlock_failed invalid_lease_unlock : Error → Error
  nil_unlock nil_lease_context empty_fence_token : Error
  joined : Error → Error → Error
