-- ===== src/Iec61850/Browse.antt =====
-- iaiops_energy/connectors/iec61850/driver.py: get_logical_devices and get_data_directory, which
-- tell a failed browse from an empty node.
pub mod Explained
use industrial_aiops_energy.Prelude.{
  ℕ, Bool, true, false, Option, none, some, List, [], ◌∷◌, ◌++◌, Text, codes, ℤ, if◌then◌else◌,
}
use industrial_aiops_energy.Python.{Result, ok, raise, Exception, other, browse_error}
use industrial_aiops_energy.Iec61850.Binding.{
  Binding, Return, Level, logical_device, logical_node, data_object, safe, unwrap, is_failure,
  linkedlist_to_str, free_list,
}

-- A reply that is no failure, with its payload.
unfoldable pub reply : Result Return → Option (Option ℕ)
reply r = let (payload, err) = unwrap (safe r) in if is_failure err then none else some payload

-- The attempts, in their order.
abbrev pub attempts : List Level
attempts = logical_device ∷ logical_node ∷ data_object ∷ []

-- f"browse of '{reference}' failed at every ACSI level"
unfoldable pub no_level : Text → Exception
no_level reference =
    other browse_error (codes "browse of '" ++ (reference ++ codes "' failed at every ACSI level"))

module _ (lib : Binding) where
  -- One round of get_data_directory; `none` is a call that is absent or failed.
  unfoldable pub level_reply : Text → Level → Option (Option ℕ)
  level_reply reference level = elim (lib.directory level) [
    | none ↦ none
    | some call ↦ reply (call reference)
  ]

  -- The loop of get_data_directory and what follows it; `freed` collects the lists that were freed.
  unfoldable pub browse_levels : Text → List Level → Bool → List ℕ → Result (List Text) × List ℕ
  browse_levels reference [] true freed = (ok [], freed)
  browse_levels reference [] false freed = (raise (no_level reference), freed)
  browse_levels reference (level ∷ levels) saw_success freed = elim (level_reply reference level) [
    | none ↦ browse_levels reference levels saw_success freed
    | some none ↦ browse_levels reference levels true freed
    | some (some payload) ↦ elim (linkedlist_to_str lib payload) [
      | [] ↦ browse_levels reference levels true (free_list lib payload freed)
      | name ∷ names ↦ (ok (name ∷ names), free_list lib payload freed)
    ]
  ]

  -- get_data_directory
  unfoldable pub get_data_directory : Text → List ℕ → Result (List Text) × List ℕ
  get_data_directory reference freed = browse_levels reference attempts false freed

  -- get_logical_devices; the error's text is not spelled out
  unfoldable pub get_logical_devices : List ℕ → Result (List Text) × List ℕ
  get_logical_devices freed = elim lib.logical_device_list [
    | none ↦ (
      raise (other browse_error (codes "binding lacks IedConnection_getLogicalDeviceList")),
      freed,
    )
    | some r ↦ elim (reply r) [
      | none ↦ (raise (other browse_error (codes "getLogicalDeviceList failed")), freed)
      | some none ↦ (ok [], freed)
      | some (some payload) ↦ (ok (linkedlist_to_str lib payload), free_list lib payload freed)
    ]
  ]
