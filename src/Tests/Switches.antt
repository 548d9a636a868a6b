-- ===== src/Tests/Switches.antt =====
-- An administrator turns on the kill switch of vehicle 7, and is refused an approval.
use car_flow_mvp.Base.{ℕ, ◌≡◌, refl, false, Option, none, some, String, [], ◌∷◌, ◌++◌, map, All}
use car_flow_mvp.Base.Result.{ok, err}
use car_flow_mvp.Shared.Http.{http_exception}
use car_flow_mvp.Shared.Auth.{Claims, admin}
use car_flow_mvp.Shared.Idempotency.{select_key}
use car_flow_mvp.Admin.{kill_switch_activated, empty_text, AdminDb, Upstream, Fresh}
use car_flow_mvp.Admin.Routes.{approve, reject, enable_kill_switch, serve_admin}
use car_flow_mvp.Admin.Audit.{refusal_passed_on, kill_switch_enforced}
use car_flow_mvp.Telemetry.{
  Reading, Kept, TelemetryPacket, ingest_loop, consume_batch, build_batch, put,
}
use car_flow_mvp.Telemetry.Ingest.{IsStill}
use car_flow_mvp.Telemetry.Batches.{followed, consume_batch_follows}

abbrev an_admin : Claims
an_admin = record { sub = 8; role = admin }

abbrev whole_body : String → String
whole_body body = body

abbrev nothing_done : AdminDb ℕ
nothing_done = record { actions = []; keys = []; switches = λ vehicle_id. false }

no_key : select_key "8" "key" nothing_done.keys ≡ none
unfolding select_key
no_key = refl

abbrev fresh : Fresh
fresh = record { id = 500; now = 5 }

abbrev not_pending : Upstream ℕ
not_pending = record { status_code = 409; json = 0; text = "cannot approve from status 'approved'" }

refusal_passed_on_example :
    (serve_admin whole_body
        (approve not_pending fresh 7)
        an_admin
        (some "key")
        "8"
        ""
        5
        nothing_done
      ≡ (err (http_exception 409 "cannot approve from status 'approved'"), nothing_done))
    × (serve_admin whole_body
          (reject not_pending fresh 7)
          an_admin
          (some "key")
          "8"
          ""
          5
          nothing_done
        ≡ (err (http_exception 409 "cannot approve from status 'approved'"), nothing_done))
refusal_passed_on_example =
    refusal_passed_on whole_body an_admin "8" "key" "" 5 nothing_done refl no_key refl not_pending
      fresh 7 refl

-- Every text is a packet with the speed 90.
abbrev fast : String → Option (TelemetryPacket ℕ)
fast raw = some (record { lat = 48; lng = 11; speed_kph = 90; recorded_at = 5 })

kill_switch_enforced_example :
    let out =
      serve_admin whole_body
        (enable_kill_switch fresh 7)
        an_admin
        (some "key")
        "8"
        ""
        5
        nothing_done in
    (out.0 ≡ ok (record { status_code = 204; content = empty_text }))
    × (out.1.actions
        ≡ nothing_done.actions
          ++ record {
            id = 500;
            admin_id = 8;
            action_type = kill_switch_activated;
            target_id = 7;
            created_at = 5;
          }
            ∷ [])
    × All
        (IsStill fast 0 7)
        (ingest_loop fast 0 7
          (map (λ raw. record { raw = raw; switches = out.1.switches }) ("a" ∷ "b" ∷ []))).1
kill_switch_enforced_example =
    kill_switch_enforced whole_body an_admin "8" "key" "" 5 nothing_done refl no_key refl fast 0
      fresh 7 ("a" ∷ "b" ∷ [])

abbrev reading : (vehicle_id recorded_at : ℕ) → Reading ℕ
reading vehicle_id recorded_at = record {
  vehicle_id = vehicle_id;
  lat = 48;
  lng = 11;
  speed_kph = 90;
  recorded_at = recorded_at;
}

abbrev nothing_kept : Kept ℕ
nothing_kept = record { packets = []; positions = λ vehicle_id. none }

-- Of three readings the last one of vehicle 7 counts.
last_counts :
    (consume_batch (reading 7 1 ∷ reading 9 2 ∷ reading 7 3 ∷ []) nothing_kept).positions 7
    ≡ some (record { lat = 48; lng = 11; recorded_at = 3 })
unfolding consume_batch build_batch put
last_counts = refl

consume_batch_follows_example :
    let kept = consume_batch (reading 7 1 ∷ reading 9 2 ∷ []) nothing_kept in
    (kept.packets ≡ [] ++ reading 7 1 ∷ reading 9 2 ∷ [])
    × ((i : ℕ) → kept.positions i ≡ followed i none (reading 7 1 ∷ reading 9 2 ∷ []))
consume_batch_follows_example = consume_batch_follows (reading 7 1 ∷ reading 9 2 ∷ []) nothing_kept
