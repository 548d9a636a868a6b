-- ===== src/Admin/Audit.antt =====
-- What an administrator's request records, and what a kill switch does to the readings of its vehicle.
use text.Mathlib.Text.{◌==◌ as str_eq}
use car_flow_mvp.Base.{
  ℕ, ◌≡◌, refl, ap, ◌∙◌, true, false, Option, none, some, String, List, [], ◌∷◌, ◌++◌, map, leb,
  All, ==_refl,
}
use car_flow_mvp.Base.Result.{Result, ok, err}
use car_flow_mvp.Base.Exec.{continue, caught}
use car_flow_mvp.Shared.Http.{Failure, http_exception, Response}
use car_flow_mvp.Shared.Auth.{Claims, admin, same_role, require_role}
use car_flow_mvp.Shared.Idempotency.{
  IdempotencyRow, fresh_guard, select_key, make_guard, store, respond_idempotently,
}
use car_flow_mvp.Shared.Endpoint.{run_endpoint}
use car_flow_mvp.Shared.KillSwitch.{Switches, activate, is_active}
use car_flow_mvp.Admin.{
  AdminAction, kill_switch_activated, AdminBody, empty_text, AdminDb, Upstream, Fresh,
  decide_vehicle, record_action, activate_kill_switch, key_table,
}
use car_flow_mvp.Admin.Routes.{approve, reject, enable_kill_switch, serve_admin}
use car_flow_mvp.Telemetry.{TelemetryPacket, Received, ingest_loop}
use car_flow_mvp.Telemetry.Ingest.{IsStill, ingest_loop-IsStill}

module _ {V H : Type 0} (hash_request_body : H → String) (claims : Claims) (c k : String) (body : H)
    (now : ℕ) (db : AdminDb V) (named : str_eq k "" ≡ false) (new : select_key c k db.keys ≡ none)
    (role : same_role claims.role admin ≡ true) where
  -- A decision that the listing service refuses is answered with its status and its text, and is neither
  -- recorded nor stored under the key: for an administrator's approval and rejection with a new key.
  pub refusal_passed_on :
      (response : Upstream V) (fresh : Fresh) (vehicle_id : ℕ)
      → leb 400 response.status_code ≡ true
      → let refused = http_exception response.status_code response.text in
        (serve_admin hash_request_body
            (approve response fresh vehicle_id)
            claims
            (some k)
            c
            body
            now
            db
          ≡ (err refused, db))
        × (serve_admin hash_request_body
              (reject response fresh vehicle_id)
              claims
              (some k)
              c
              body
              now
              db
            ≡ (err refused, db))
  unfolding serve_admin run_endpoint make_guard require_role respond_idempotently decide_vehicle
  refusal_passed_on response fresh vehicle_id refused = (
    rw (named, new, role, refused, caught, continue) refl,
    rw (named, new, role, refused, caught, continue) refl,
  )

  abbrev activation : Fresh → ℕ → AdminAction
  activation fresh vehicle_id = record {
    id = fresh.id;
    admin_id = claims.sub;
    action_type = kill_switch_activated;
    target_id = vehicle_id;
    created_at = fresh.now;
  }

  abbrev stored_row : IdempotencyRow (AdminBody V)
  stored_row = record {
    consumer_id = c;
    key = k;
    request_hash = hash_request_body body;
    response_body = empty_text;
    status_code = 204;
    created_at = now;
  }

  abbrev after_activation : Fresh → ℕ → AdminDb V
  after_activation fresh vehicle_id = record db {
    actions = db.actions ++ activation fresh vehicle_id ∷ [];
    switches = activate vehicle_id db.switches;
  }

  row_stored :
      (fresh : Fresh) (vehicle_id : ℕ)
      → store
          (key_table V)
          (fresh_guard c k (hash_request_body body))
          empty_text
          204
          now
          (after_activation fresh vehicle_id)
        ≡ (
          ok (fresh_guard c k (hash_request_body body)),
          record (after_activation fresh vehicle_id) { keys = db.keys ++ stored_row ∷ [] },
        )
  unfolding store
  row_stored fresh vehicle_id = rw (new, store) refl

  enabled :
      (fresh : Fresh) (vehicle_id : ℕ)
      → serve_admin hash_request_body
          (enable_kill_switch fresh vehicle_id)
          claims
          (some k)
          c
          body
          now
          db
        ≡ (
          ok (record { status_code = 204; content = empty_text }),
          record (after_activation fresh vehicle_id) { keys = db.keys ++ stored_row ∷ [] },
        )
  unfolding serve_admin run_endpoint make_guard require_role respond_idempotently
      activate_kill_switch record_action
  enabled fresh vehicle_id = rw (named, new, role, row_stored fresh vehicle_id, continue) refl

  texts_under :
      (switches : Switches) (vehicle_id : ℕ) (texts : List String)
      → is_active vehicle_id switches ≡ true
      → All
          (λ (received : Received). is_active vehicle_id received.switches ≡ true)
          (map (λ raw. record { raw = raw; switches = switches }) texts)
  texts_under switches vehicle_id [] on = tt
  texts_under switches vehicle_id (raw ∷ texts) on = (on, texts_under switches vehicle_id texts on)

  -- When an administrator turns on the kill switch of a vehicle, under a new key, that is answered by 204
  -- and recorded; and under the switches that it leaves, every reading that a connection of the vehicle
  -- publishes is the vehicle's own and has the speed 0, whatever texts the device sends.
  pub kill_switch_enforced :
      {N : Type 0} (parse_packet : String → Option (TelemetryPacket N)) (zero_speed : N)
      (fresh : Fresh) (vehicle_id : ℕ) (texts : List String)
      → let out =
          serve_admin hash_request_body
            (enable_kill_switch fresh vehicle_id)
            claims
            (some k)
            c
            body
            now
            db in
        (out.0 ≡ ok (record { status_code = 204; content = empty_text }))
        × (out.1.actions ≡ db.actions ++ activation fresh vehicle_id ∷ [])
        × All
            (IsStill parse_packet zero_speed vehicle_id)
            (ingest_loop parse_packet zero_speed vehicle_id
              (map (λ raw. record { raw = raw; switches = out.1.switches }) texts)).1
  kill_switch_enforced parse_packet zero_speed fresh vehicle_id texts =
      let done = enabled fresh vehicle_id in
      (
        ap (λ (o : Result Failure (Response (AdminBody V)) × AdminDb V). o.0) done,
        ap (λ (o : Result Failure (Response (AdminBody V)) × AdminDb V). o.1.actions) done,
        ingest_loop-IsStill parse_packet zero_speed vehicle_id _ (
            texts_under _ vehicle_id texts (
              ap
                (λ (o : Result Failure (Response (AdminBody V)) × AdminDb V).
                  o.1.switches vehicle_id)
                done
              ∙ rw (==_refl vehicle_id) refl)),
      )
