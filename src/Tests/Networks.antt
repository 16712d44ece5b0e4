-- ===== src/Tests/Networks.antt =====
-- A network state that publishes the legacy assignment and lacks the portal one.
use sqd_network.Base.{ℕ, ◌≡◌, refl, none, some, err}
use sqd_network.Assignments.Network.{AssignmentType, NetworkState, no_portal_assignment, resolve}

abbrev state : NetworkState ℕ ℕ ℕ
state = record {
  assignment = some 1;
  worker_assignment = some 2;
  portal_assignment = none;
  schema_bundle = some 4;
  assignment_type = AssignmentType.legacy_type;
}

resolve_runs :
    resolve state (some AssignmentType.split_type)
    ≡ err (record { assignment_type = AssignmentType.split_type; missing = no_portal_assignment })
unfolding resolve
resolve_runs = refl
