-- ===== src/Admin/Routes.antt =====
-- services/admin/routes.py: the endpoints.
use car_flow_mvp.Base.{ℕ, true, Option, String, List, ⊤}
use car_flow_mvp.Base.Int.{ℤ}
use car_flow_mvp.Base.Result.{Result, ok, err}
use car_flow_mvp.Base.Exec.{Exec, pure, lift, catching, ◌>>=◌, ◌>>◌}
use car_flow_mvp.Shared.Http.{Failure, http_exception, server_error, Response}
use car_flow_mvp.Shared.Auth.{admin, Claims, require_role}
use car_flow_mvp.Shared.Idempotency.{make_guard}
use car_flow_mvp.Shared.Endpoint.{Endpoint, run_endpoint}
use car_flow_mvp.Admin.{
  AdminAction, AdminBody, vehicle_json, empty_text, AdminDb, Upstream, AdminError, upstream_error,
  database_error, Fresh, Action, key_table, approve_vehicle, reject_vehicle, list_bookings,
  activate_kill_switch, deactivate_kill_switch, list_recent,
}

-- `except UpstreamError`: the other service's status and text are passed on.
abbrev pub admin_failure : AdminError → Failure
admin_failure (upstream_error status_code detail) = http_exception status_code detail
admin_failure database_error = server_error

abbrev pub AdminEndpoint : Type 0 → Type 0
AdminEndpoint V = Endpoint (AdminDb V) (AdminBody V)

module _ {V : Type 0} where
  abbrev pub decided : Action V V → Exec (AdminDb V) Failure (AdminBody V)
  decided operation = do vehicle ← catching admin_failure operation; pure (vehicle_json vehicle)

  abbrev pub switched : Action V ⊤ → Exec (AdminDb V) Failure (AdminBody V)
  switched operation = do catching admin_failure operation; pure empty_text

  abbrev pub approve : Upstream V → Fresh → ℕ → AdminEndpoint V
  approve response fresh vehicle_id = record {
    allowed_role = admin;
    status_code = 200;
    payload_valid = true;
    build = λ claims. decided (approve_vehicle response fresh claims.sub vehicle_id);
  }

  abbrev pub reject : Upstream V → Fresh → ℕ → AdminEndpoint V
  reject response fresh vehicle_id = record {
    allowed_role = admin;
    status_code = 200;
    payload_valid = true;
    build = λ claims. decided (reject_vehicle response fresh claims.sub vehicle_id);
  }

  abbrev pub enable_kill_switch : Fresh → ℕ → AdminEndpoint V
  enable_kill_switch fresh vehicle_id = record {
    allowed_role = admin;
    status_code = 204;
    payload_valid = true;
    build = λ claims. switched (activate_kill_switch fresh claims.sub vehicle_id);
  }

  abbrev pub disable_kill_switch : Fresh → ℕ → AdminEndpoint V
  disable_kill_switch fresh vehicle_id = record {
    allowed_role = admin;
    status_code = 204;
    payload_valid = true;
    build = λ claims. switched (deactivate_kill_switch fresh claims.sub vehicle_id);
  }

  -- The end of the request's transaction: where it raises, the database is rolled back, and Redis is not.
  abbrev pub settled_db :
      {A : Type 0} → AdminDb V → Result Failure A × AdminDb V → Result Failure A × AdminDb V
  settled_db before (ok a, db) = (ok a, db)
  settled_db before (err e, db) = (err e, record before { switches = db.switches })

  module _ {H : Type 0} (hash_request_body : H → String) where
    -- A request to an endpoint that changes data: the guard, then the body.
    unfoldable pub serve_admin :
        AdminEndpoint V
        → Claims
        → Option String
        → String
        → H
        → ℕ
        → Exec (AdminDb V) Failure (Response (AdminBody V))
    serve_admin endpoint claims key consumer_id body now db = settled_db db (
        (do
          guard ← λ db. (make_guard (key_table V) hash_request_body key consumer_id body db, db)
          run_endpoint (key_table V) endpoint claims guard now)
          db)

  unfoldable pub bookings : Claims → Upstream V → Exec (AdminDb V) Failure V
  bookings claims response = do
    lift (require_role claims admin)
    catching admin_failure (list_bookings response)

  unfoldable pub list_actions :
      Claims → (limit offset : ℤ) → Exec (AdminDb V) Failure (List AdminAction)
  list_actions claims limit offset = do
    lift (require_role claims admin)
    catching admin_failure (list_recent limit offset)
