-- ===== src/Workload/Chaos/Failures.antt =====
-- crates/workload/src/chaos.rs: what a check of the harness says. The text of a message is formatted
-- from the values at hand; here each message is a constructor.
use muaddib.Prelude.{Bool, true, false}

pub data Failure : Type 0 where
  child_count spawn_disagrees send_disagrees : Failure
  receive_failed wrong_send_stamp delivered_count receive_disagrees : Failure
  read_disagrees write_disagrees revoke_disagrees destroy_disagrees : Failure
  table_differs capability_differs liveness_differs region_count_differs bytes_differ : Failure
  clocks_disagree lamport_violated : Failure
  kernel_panicked : Failure

abbrev pub same_bool : Bool → Bool → Bool
same_bool true b = b
same_bool false true = false
same_bool false false = true
