-- ===== src/Listing/Routes/Repetition.antt =====
-- A request that is sent again to an endpoint of services/listing/routes.py.
use car_flow_mvp.Base.{ℕ, ◌≡◌, Bool, true, some, String, arith}
use car_flow_mvp.Base.Result.{ok}
use car_flow_mvp.Shared.Http.{Response}
use car_flow_mvp.Shared.Auth.{Claims, same_role}
use car_flow_mvp.Shared.Idempotency.{select_key}
use car_flow_mvp.Shared.Endpoint.{serve}
use car_flow_mvp.Shared.Endpoint.Repeated.{repeated_answer}
use car_flow_mvp.Listing.{
  ListingDb, key_table, get_by_id, save, get_owned_vehicle, create_vehicle, update_vehicle,
  approve_vehicle, reject_vehicle, insert_block, add_availability_block,
}
use car_flow_mvp.Listing.Schemas.{CreateVehicleRequest, VehicleFields, ListingBody}
use car_flow_mvp.Listing.Routes.{
  ListingEndpoint, create, update, approve, reject, create_availability_block,
}

-- A request to one of the five endpoints that change the tables.
pub data Request (C : Type 0) : Type 0 where
  creating : ℕ → CreateVehicleRequest C → Request C
  updating : (event_id vehicle_id : ℕ) → VehicleFields C → Request C
  approving : (event_id vehicle_id : ℕ) → Request C
  rejecting : ℕ → Request C
  blocking : (block_id vehicle_id start_date end_date : ℕ) → Request C

module _ {C : Type 0} (is_latitude is_longitude : C → Bool) where
  abbrev pub target : Request C → ListingEndpoint C
  target (creating vehicle_id payload) = create is_latitude is_longitude vehicle_id payload
  target (updating event_id vehicle_id payload) =
      update is_latitude is_longitude event_id vehicle_id payload
  target (approving event_id vehicle_id) = approve event_id vehicle_id
  target (rejecting vehicle_id) = reject vehicle_id
  target (blocking block_id vehicle_id start_date end_date) =
      create_availability_block block_id vehicle_id start_date end_date

  keeps_keys :
      (q : Request C) (claims : Claims) (s s' : ListingDb C) (r : ListingBody C)
      → (target q).build claims s ≡ (ok r, s')
      → s'.keys ≡ s.keys
  unfolding create_vehicle update_vehicle approve_vehicle reject_vehicle add_availability_block
      get_owned_vehicle get_by_id save insert_block
  keeps_keys (creating v p) claims s s' r h = ground arith
  keeps_keys (updating e v p) claims s s' r h = ground arith
  keeps_keys (approving e v) claims s s' r h = ground arith
  keeps_keys (rejecting v) claims s s' r h = ground arith
  keeps_keys (blocking b v a z) claims s s' r h = ground arith

  module _ {H : Type 0} (hash_request_body : H → String) where
    -- A valid request to a listing endpoint that changes data gets, where its key and its body are those
    -- of a valid request that the same caller had answered, that request's answer, and changes nothing: also where
    -- it names another vehicle or another endpoint, which neither the key's row nor the hash of the
    -- body tells apart. The key's row is still the one of the first request, and the caller has the
    -- roles of both endpoints.
    pub listing_request_repeated :
        (q q' : Request C) (claims : Claims) (c k : String) (body : H) (now now' : ℕ)
        (db later : ListingDb C) {response : Response (ListingBody C)}
        → (target q).payload_valid ≡ true
        → (target q').payload_valid ≡ true
        → same_role claims.role (target q).allowed_role ≡ true
        → same_role claims.role (target q').allowed_role ≡ true
        → (serve (key_table C) hash_request_body (target q) claims (some k) c body now db).0
          ≡ ok response
        → select_key c k later.keys
          ≡ select_key c k
              (serve
                (key_table C)
                hash_request_body
                (target q)
                claims
                (some k)
                c
                body
                now
                db).1.keys
        → serve (key_table C) hash_request_body (target q') claims (some k) c body now' later
          ≡ (ok response, later)
    listing_request_repeated q q' claims c k body now now' db later valid valid' role role' answered
          kept =
        repeated_answer (key_table C) hash_request_body (target q) (target q') claims c k body now
          now' db later valid valid' role role' (keeps_keys q claims) answered kept
