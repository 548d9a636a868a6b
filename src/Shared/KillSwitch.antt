-- ===== src/Shared/KillSwitch.antt =====
-- shared/kill_switch.py: the keys in Redis that the admin service writes and the telemetry service reads,
-- as a function from vehicles to whether the key is there.
use car_flow_mvp.Base.{ℕ, Bool, true, false, if◌then◌else◌, ◌==◌}

abbrev pub Switches : Type 0
Switches = ℕ → Bool

abbrev pub activate : ℕ → Switches → Switches
activate vehicle_id switches i = if vehicle_id == i then true else switches i

abbrev pub deactivate : ℕ → Switches → Switches
deactivate vehicle_id switches i = if vehicle_id == i then false else switches i

abbrev pub is_active : ℕ → Switches → Bool
is_active vehicle_id switches = switches vehicle_id
