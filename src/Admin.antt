-- ===== src/Admin.antt =====
-- services/admin/models.py, repository.py, clients.py and service.py: what administrators do, and its
-- record. The answers of the listing and the booking service are arguments; `V` is the type of their
-- bodies. The database is rolled back when a request raises; the kill switches, in Redis, are not.
pub mod Routes
pub mod Audit
use car_flow_mvp.Base.{
  ℕ, Bool, true, false, String, List, [], ◌∷◌, ◌++◌, ⊤, leb, ltb, take, drop, refl, if◌then◌else◌,
}
use car_flow_mvp.Base.Int.{ℤ}
use car_flow_mvp.Shared.Paging.{sql_page}
use car_flow_mvp.Base.Result.{Result, ok, err}
use car_flow_mvp.Base.Exec.{Exec, or_raise, pure, lift, gets, modify, ◌>>=◌, ◌>>◌}
use car_flow_mvp.Shared.Idempotency.{IdempotencyRow, KeyTable}
use car_flow_mvp.Shared.KillSwitch.{Switches, activate, deactivate}

pub data ActionType : Type 0 where
  vehicle_approved vehicle_rejected kill_switch_activated kill_switch_deactivated : ActionType

-- A row of `admin_actions`; the target's type is always "vehicle", and the payload is empty.
pub record AdminAction : Type 0 where
  pub id : ℕ
  pub admin_id : ℕ
  pub action_type : ActionType
  pub target_id : ℕ
  pub created_at : ℕ

-- A body that is stored under an idempotency key: what the listing service answered, or "".
pub data AdminBody (V : Type 0) : Type 0 where
  vehicle_json : V → AdminBody V
  empty_text : AdminBody V

pub record AdminDb (V : Type 0) : Type 0 where
  pub actions : List AdminAction
  pub keys : List (IdempotencyRow (AdminBody V))
  pub switches : Switches

-- The response of another service: its status, its JSON, and its text.
pub record Upstream (V : Type 0) : Type 0 where
  pub status_code : ℕ
  pub json : V
  pub text : String

pub data AdminError : Type 0 where
  upstream_error : ℕ → String → AdminError
  -- An error of the database that nothing catches.
  database_error : AdminError

-- What `uuid4` and the clock give to a new row.
pub record Fresh : Type 0 where
  pub id : ℕ
  pub now : ℕ

abbrev pub Action : Type 0 → Type 0 → Type 0
Action V A = Exec (AdminDb V) AdminError A

-- ORDER BY created_at DESC
abbrev pub insert_newest : AdminAction → List AdminAction → List AdminAction
insert_newest a [] = a ∷ []
insert_newest a (b ∷ rows) =
    if ltb a.created_at b.created_at then b ∷ insert_newest a rows else a ∷ b ∷ rows

abbrev pub newest_first : List AdminAction → List AdminAction
newest_first [] = []
newest_first (a ∷ rows) = insert_newest a (newest_first rows)

module _ {V : Type 0} where
  -- `if response.status_code >= 400: raise UpstreamError(...)`
  abbrev pub upstream_body : Upstream V → Result AdminError V
  upstream_body response =
      if leb 400 response.status_code
      then err (upstream_error response.status_code response.text)
      else ok response.json

  unfoldable pub record_action : Fresh → (admin_id : ℕ) → ActionType → (target_id : ℕ) → Action V ⊤
  record_action fresh admin_id action_type target_id = modify (λ db. record db {
    actions =
        db.actions
        ++ record {
          id = fresh.id;
          admin_id = admin_id;
          action_type = action_type;
          target_id = target_id;
          created_at = fresh.now;
        }
          ∷ [];
  })

  -- For a limit and an offset that the database's driver can send.
  unfoldable pub list_recent : (limit offset : ℤ) → Action V (List AdminAction)
  list_recent limit offset db =
      or_raise database_error (sql_page limit offset (newest_first db.actions)) db

  -- `approve_vehicle` and `reject_vehicle`, by the response of the listing service.
  unfoldable pub decide_vehicle :
      ActionType → Upstream V → Fresh → (admin_id vehicle_id : ℕ) → Action V V
  decide_vehicle action_type response fresh admin_id vehicle_id = do
    vehicle ← lift (upstream_body response)
    record_action fresh admin_id action_type vehicle_id
    pure vehicle

  abbrev pub approve_vehicle : Upstream V → Fresh → (admin_id vehicle_id : ℕ) → Action V V
  approve_vehicle = decide_vehicle vehicle_approved

  abbrev pub reject_vehicle : Upstream V → Fresh → (admin_id vehicle_id : ℕ) → Action V V
  reject_vehicle = decide_vehicle vehicle_rejected

  unfoldable pub list_bookings : Upstream V → Action V V
  list_bookings response = lift (upstream_body response)

  unfoldable pub activate_kill_switch : Fresh → (admin_id vehicle_id : ℕ) → Action V ⊤
  activate_kill_switch fresh admin_id vehicle_id = do
    modify (λ db. record db { switches = activate vehicle_id db.switches })
    record_action fresh admin_id kill_switch_activated vehicle_id

  unfoldable pub deactivate_kill_switch : Fresh → (admin_id vehicle_id : ℕ) → Action V ⊤
  deactivate_kill_switch fresh admin_id vehicle_id = do
    modify (λ db. record db { switches = deactivate vehicle_id db.switches })
    record_action fresh admin_id kill_switch_deactivated vehicle_id

abbrev pub key_table : (V : Type 0) → KeyTable (AdminDb V) (AdminBody V)
key_table V = record {
  keys = λ db. db.keys;
  with_keys = λ rows db. record db { keys = rows };
  keys-with_keys = λ rows db. refl;
}
