-- ===== src/Runtime/Reported.antt =====
-- Which changes of state `_handleIncomingData` of src/runtime-manager/runtime-manager.mjs
-- broadcasts.
use betting_automation_contr.Prelude.{Option, none, String, str_eq, if◌then◌else◌}

module _ (Value : Type 0) where
  -- What the manager still knows of the readiness of the fleet.
  abbrev pub readiness_after : String → Option Value → Option Value
  readiness_after s v = if str_eq s "STOPPED" then none else v
