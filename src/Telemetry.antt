-- ===== src/Telemetry.antt =====
-- services/telemetry: packets of positions come over WebSockets, go through a topic, and are kept; the
-- last position of each vehicle is kept apart. `N` is the type of the readings. What pydantic's parser
-- makes of a text is an argument, and so is `zero_speed`, the number 0.0.
pub mod Ingest
pub mod Batches
use car_flow_mvp.Base.{
  ℕ, Bool, true, false, Option, none, some, String, List, [], ◌∷◌, ◌++◌, ◌==◌, if◌then◌else◌,
}
use car_flow_mvp.Base.Result.{Result, ok, err}
use car_flow_mvp.Shared.Http.{Failure, http_exception}
use car_flow_mvp.Shared.Tokens.{Jwt, TokenClaims}
use car_flow_mvp.Shared.KillSwitch.{Switches, is_active}

module _ (N : Type 0) where
  pub record TelemetryPacket : Type 0 where
    pub lat : N
    pub lng : N
    pub speed_kph : N
    pub recorded_at : ℕ

  -- A message on the topic, and a document of the collection `packets`.
  pub record Reading : Type 0 where
    pub vehicle_id : ℕ
    pub lat : N
    pub lng : N
    pub speed_kph : N
    pub recorded_at : ℕ

  pub record Position : Type 0 where
    pub lat : N
    pub lng : N
    pub recorded_at : ℕ

pub data Reply : Type 0 where
  accepted rejected : Reply

-- How a connection ends: refused with a code, or the client leaves.
pub data Connection (N : Type 0) : Type 0 where
  closed : ℕ → Connection N
  disconnected : List Reply → List (Reading N) → Connection N

-- A text that came in, and the kill switches at that moment.
pub record Received : Type 0 where
  pub raw : String
  pub switches : Switches

module _ {N : Type 0} (parse_packet : String → Option (TelemetryPacket N)) (zero_speed : N) where
  unfoldable pub apply_kill_switch : TelemetryPacket N → Bool → TelemetryPacket N
  apply_kill_switch packet active =
      if active then record packet { speed_kph = zero_speed } else packet

  -- `publish_packet`
  abbrev pub message_of : ℕ → TelemetryPacket N → Reading N
  message_of vehicle_id packet = record {
    vehicle_id = vehicle_id;
    lat = packet.lat;
    lng = packet.lng;
    speed_kph = packet.speed_kph;
    recorded_at = packet.recorded_at;
  }

  -- One round of the loop: the reply, and what is published.
  unfoldable pub ingest_text : ℕ → Received → Reply × List (Reading N)
  ingest_text vehicle_id received = elim (parse_packet received.raw) [
    | none ↦ (rejected, [])
    | some packet ↦ (
      accepted,
      message_of vehicle_id (apply_kill_switch packet (is_active vehicle_id received.switches))
          ∷ [],
    )
  ]

  -- The loop, over the texts that come before the client leaves.
  unfoldable pub ingest_loop : ℕ → List Received → List Reply × List (Reading N)
  ingest_loop vehicle_id [] = ([], [])
  ingest_loop vehicle_id (received ∷ texts) =
      let (reply, published) = ingest_text vehicle_id received in
      let (replies, later) = ingest_loop vehicle_id texts in (reply ∷ replies, published ++ later)

  abbrev pub connected : ℕ → List Received → Option TokenClaims → Connection N
  connected vehicle_id texts none = closed 4401
  connected vehicle_id texts (some claims) =
      let (replies, published) = ingest_loop vehicle_id texts in disconnected replies published

  unfoldable pub ingest :
      Jwt → (issuer : String) → (now : ℕ) → String → (vehicle_id : ℕ) → List Received → Connection N
  ingest jwt issuer now token vehicle_id texts =
      connected vehicle_id texts (jwt.decode issuer now token)

-- The collection, and the positions in Redis.
pub record Kept (N : Type 0) : Type 0 where
  pub packets : List (Reading N)
  pub positions : ℕ → Option (Position N)

module _ {N : Type 0} where
  -- `latest_by_vehicle[key] = packet`: a Python dict keeps the place of a key that is there.
  unfoldable pub put : Reading N → List (Reading N) → List (Reading N)
  put packet [] = packet ∷ []
  put packet (r ∷ latest) =
      if r.vehicle_id == packet.vehicle_id then packet ∷ latest else r ∷ put packet latest

  -- `build_batch`, on records that `json.loads` reads.
  abbrev pub build_batch_onto :
      List (Reading N) → List (Reading N) → List (Reading N) → List (Reading N) × List (Reading N)
  build_batch_onto documents latest [] = (documents, latest)
  build_batch_onto documents latest (packet ∷ records) =
      build_batch_onto (documents ++ packet ∷ []) (put packet latest) records

  unfoldable pub build_batch : List (Reading N) → List (Reading N) × List (Reading N)
  build_batch records = build_batch_onto [] [] records

  abbrev pub position_of : Reading N → Position N
  position_of packet = record {
    lat = packet.lat;
    lng = packet.lng;
    recorded_at = packet.recorded_at;
  }

  abbrev pub write_latest_position : Reading N → (ℕ → Option (Position N)) → ℕ → Option (Position N)
  write_latest_position packet positions i =
      if packet.vehicle_id == i then some (position_of packet) else positions i

  -- `for vehicle_id, packet in latest_by_vehicle.items()`
  abbrev pub write_latest : List (Reading N) → (ℕ → Option (Position N)) → ℕ → Option (Position N)
  write_latest [] positions i = positions i
  write_latest (packet ∷ latest) positions i =
      write_latest latest (write_latest_position packet positions) i

  -- One round of `run_telemetry_consumer`.
  unfoldable pub consume_batch : List (Reading N) → Kept N → Kept N
  consume_batch records kept =
      let (documents, latest) = build_batch records in
      record { packets = kept.packets ++ documents; positions = write_latest latest kept.positions }

pub record VehicleLocationResponse (N : Type 0) : Type 0 where
  pub vehicle_id : ℕ
  pub lat : N
  pub lng : N
  pub recorded_at : ℕ

module _ {N : Type 0} where
  abbrev pub located : ℕ → Option (Position N) → Result Failure (VehicleLocationResponse N)
  located vehicle_id none = err (http_exception 404 "no recent location for this vehicle")
  located vehicle_id (some position) = ok (record {
    vehicle_id = vehicle_id;
    lat = position.lat;
    lng = position.lng;
    recorded_at = position.recorded_at;
  })

  -- The endpoint, of a caller with a valid access token.
  abbrev pub get_location : ℕ → Kept N → Result Failure (VehicleLocationResponse N)
  get_location vehicle_id kept = located vehicle_id (kept.positions vehicle_id)
