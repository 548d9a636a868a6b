-- ===== src/Booking/Routes/Untouched.antt =====
-- What requests to services/booking/routes.py leave of a booking of another host.
use mathlib.Core.List.{append-nil}
use car_flow_mvp.Base.{
  ℕ, ◌≡◌, refl, sym, ap, ◌∙◌, false, Option, none, some, String, List, ==_refl, ◌==◌, inl, inr,
  ==→eq, Bool-cases,
}
use car_flow_mvp.Base.Result.{ok}
use car_flow_mvp.Base.Table.{find}
use car_flow_mvp.Shared.Auth.{Claims}
use car_flow_mvp.Shared.Outbox.{OutboxRow}
use car_flow_mvp.Shared.Idempotency.{IdempotencyRow, IdempotencyGuard, select_key, store}
use car_flow_mvp.Shared.Endpoint.{serve}
use car_flow_mvp.Shared.Endpoint.Kept.{serve-Holds}
use car_flow_mvp.Shared.Endpoint.Repeated.{built-ok}
use car_flow_mvp.Booking.Domain.Lifecycle.{Command}
use car_flow_mvp.Booking.Model.{Booking, BookingMessage, BookingResponse, BookingDb, key_table}
use car_flow_mvp.Booking.Repository.{booking_key}
use car_flow_mvp.Booking.Service.{
  request_booking, accept_booking_request, reject_booking_request, record_handover, record_return,
}
use car_flow_mvp.Booking.Settle.{Settled}
use car_flow_mvp.Booking.Settle.Operations.{accept-Settled, reject-Settled}
use car_flow_mvp.Booking.Settle.Inspections.{handover-Settled, return-Settled}
use car_flow_mvp.Booking.Create.{Created, request-Created}
use car_flow_mvp.Booking.Invariant.{history}
use car_flow_mvp.Booking.Invariant.Log.{history-append, history-logged_other}
use car_flow_mvp.Booking.Invariant.Begun.{find_created}
use car_flow_mvp.Booking.Invariant.Kept.{find_settled}
use car_flow_mvp.Booking.Routes.{booking_response, stored_failure, create_failure}
use car_flow_mvp.Booking.Routes.Authority.{accepting, rejecting, handing_over, taking_back}
use car_flow_mvp.Booking.Routes.Retry.{Request, creating, of_host, target}

-- The booking's row and its log are what they were.
pub record IsUntouched (b : Booking) (db db' : BookingDb) : Type 0 where
  pub stored : find booking_key b.id db'.bookings ≡ some b
  pub logged : history b.id db'.events ≡ history b.id db.events

module _ (b : Booking) (db : BookingDb) (stored : find booking_key b.id db.bookings ≡ some b) where
  Created-IsUntouched :
      (new : Booking) (sent : List (OutboxRow BookingMessage)) (db' : BookingDb)
      → Created db new sent db'
      → IsUntouched b db db'
  unfolding history
  Created-IsUntouched new sent db' n = elim (Bool-cases (new.id == b.id)) [
    | inl same ↦
        cc (sym n.new ∙ ap (λ k. find booking_key k db.bookings) (==→eq new.id b.id same) ∙ stored)
    | inr other ↦ record {
      stored = find_created n b.id ∙ rw other stored;
      logged =
          ap (history b.id) n.events ∙ history-append b.id db.events _ ∙ rw other (append-nil _);
    }
  ]

  Settled-IsUntouched :
      (c : Command) (before after : Booking) (sent : List (OutboxRow BookingMessage))
      (db' : BookingDb) (host_id : ℕ)
      → before.host_id ≡ host_id
      → (b.host_id == host_id) ≡ false
      → Settled c db before after sent db'
      → IsUntouched b db db'
  Settled-IsUntouched c before after sent db' host_id hosted stranger s =
      elim (Bool-cases (before.id == b.id)) [
        | inl same ↦
            let at_id = ap (λ k. find booking_key k db.bookings) (==→eq before.id b.id same) in
            let one : before ≡ b = cc (sym s.found ∙ at_id ∙ stored) in
            let his : b.host_id ≡ host_id = sym (ap (λ (x : Booking). x.host_id) one) ∙ hosted in
            cc (sym (==_refl host_id) ∙ ap (λ k. k == host_id) (sym his) ∙ stranger)
        | inr other ↦ record {
          stored = find_settled s b.id ∙ rw other stored;
          logged =
              ap (history b.id) s.events
              ∙ history-append b.id db.events _
              ∙ rw (history-logged_other b.id before.id before.version _ other) (append-nil _);
        }
      ]

stored_answer-IsUntouched :
    (b : Booking) (db s : BookingDb) (guard : IdempotencyGuard BookingResponse)
    (r : BookingResponse) (status_code now : ℕ) (o : Option (IdempotencyRow BookingResponse))
    → select_key guard.consumer_id guard.key s.keys ≡ o
    → IsUntouched b db s
    → IsUntouched b db (store key_table guard r status_code now s).1
unfolding store
stored_answer-IsUntouched b db s guard r status_code now none absent u =
    rw (store, absent) (record { stored = u.stored; logged = u.logged })
stored_answer-IsUntouched b db s guard r status_code now (some row) found u = rw (store, found) u

build-IsUntouched :
    (q : Request) (claims : Claims) (b : Booking) (db db' : BookingDb) (r : BookingResponse)
    → find booking_key b.id db.bookings ≡ some b
    → (b.host_id == claims.sub) ≡ false
    → (target q).build claims db ≡ (ok r, db')
    → IsUntouched b db db'
build-IsUntouched (creating l i e v a z) claims b db db' r stored other h =
    let (x, done) =
      built-ok create_failure (request_booking l i e claims.sub v a z) booking_response db db' r
        h in
    Created-IsUntouched b db stored x _ db' (request-Created l i e claims.sub v a z db db' x done).3
build-IsUntouched (of_host (accepting e i)) claims b db db' r stored other h =
    let (x, done) =
      built-ok stored_failure (accept_booking_request e i claims.sub) booking_response db db' r h in
    let (before, _, hosted, settled) = accept-Settled e i db db' x claims.sub done in
    Settled-IsUntouched b db stored _ before x _ db' claims.sub hosted other settled
build-IsUntouched (of_host (rejecting e i)) claims b db db' r stored other h =
    let (x, done) =
      built-ok stored_failure (reject_booking_request e i claims.sub) booking_response db db' r h in
    let (before, _, hosted, settled) = reject-Settled e i db db' x claims.sub done in
    Settled-IsUntouched b db stored _ before x _ db' claims.sub hosted other settled
build-IsUntouched (of_host (handing_over i o f p)) claims b db db' r stored other h =
    let (x, done) =
      built-ok stored_failure (record_handover i claims.sub o f p) booking_response db db' r h in
    let (before, _, hosted, settled) = handover-Settled i claims.sub o f p db db' x done in
    Settled-IsUntouched b db stored _ before x _ db' claims.sub hosted other settled
build-IsUntouched (of_host (taking_back e i o f p)) claims b db db' r stored other h =
    let (x, done) =
      built-ok stored_failure (record_return e i claims.sub o f p) booking_response db db' r h in
    let (before, _, hosted, settled) = return-Settled i claims.sub o f p db db' x e done in
    Settled-IsUntouched b db stored _ before x _ db' claims.sub hosted other settled

module _ {H : Type 0} (hash_request_body : H → String) where
  -- A stored booking and its log stay what they are through any request to the five endpoints that change
  -- bookings, answered or refused, new or repeated, of a caller who is not its host.
  pub booking-IsUntouched :
      (q : Request) (claims : Claims) (key : Option String) (c : String) (body : H) (now : ℕ)
      (b : Booking) (db : BookingDb)
      → find booking_key b.id db.bookings ≡ some b
      → (b.host_id == claims.sub) ≡ false
      → IsUntouched b db (serve key_table hash_request_body (target q) claims key c body now db).1
  booking-IsUntouched q claims key c body now b db stored other =
      serve-Holds key_table (IsUntouched b db)
        (λ guard r status_code now s.
          stored_answer-IsUntouched b db s guard r status_code now _ refl)
        hash_request_body (target q) claims key c body now db
        (λ r s1 _. build-IsUntouched q claims b db s1 r stored other)
        (record { stored = stored; logged = refl })
