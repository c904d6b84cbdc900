-- ===== src/Security/Tests/Machine.antt =====
-- The theorems on the transition table, at one event each.
use betting_automation_contr.Prelude.{true}
use betting_automation_contr.Security.Machine.Table.{Payload, empty_payload}

abbrev resolved : Payload
resolved = record empty_payload { backend_confirmed = true }

abbrev revoking : Payload
revoking = record empty_payload { nonce_checked = true }
