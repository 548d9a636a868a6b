-- ===== src/Telemetry/Ingest.antt =====
-- The kill switch: what is published of a vehicle whose switch is on.
use car_flow_mvp.Base.{
  ℕ, ◌≡◌, refl, true, Option, String, List, [], ◌∷◌, All, All-append, inl, inr, Option-cases,
}
use car_flow_mvp.Shared.KillSwitch.{is_active}
use car_flow_mvp.Telemetry.{
  TelemetryPacket, Reading, Received, apply_kill_switch, ingest_text, ingest_loop,
}

module _ {N : Type 0} (parse_packet : String → Option (TelemetryPacket N)) (zero_speed : N) where
  abbrev pub IsStill : ℕ → Reading N → Type 0
  IsStill vehicle_id reading = (reading.vehicle_id ≡ vehicle_id) × (reading.speed_kph ≡ zero_speed)

  ingest_text-IsStill :
      (vehicle_id : ℕ) (received : Received)
      → is_active vehicle_id received.switches ≡ true
      → All (IsStill vehicle_id) (ingest_text parse_packet zero_speed vehicle_id received).1
  unfolding ingest_text apply_kill_switch
  ingest_text-IsStill vehicle_id received on = elim (Option-cases (parse_packet received.raw)) [
    | inl bad ↦ rw (bad, All) tt
    | inr (packet, good) ↦ rw (good, on, All) ((refl, refl), tt)
  ]

  -- While the kill switch of a vehicle is on, every reading that a connection of it publishes is the
  -- vehicle's own and has the speed 0, whatever the device sends.
  pub ingest_loop-IsStill :
      (vehicle_id : ℕ) (texts : List Received)
      → All (λ (received : Received). is_active vehicle_id received.switches ≡ true) texts
      → All (IsStill vehicle_id) (ingest_loop parse_packet zero_speed vehicle_id texts).1
  unfolding ingest_loop
  ingest_loop-IsStill vehicle_id [] on = tt
  ingest_loop-IsStill vehicle_id (received ∷ texts) on =
      All-append (IsStill vehicle_id) (ingest_text parse_packet zero_speed vehicle_id received).1
        (ingest_loop parse_packet zero_speed vehicle_id texts).1
        (ingest_text-IsStill vehicle_id received on.0) (ingest_loop-IsStill vehicle_id texts on.1)
