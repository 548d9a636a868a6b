-- ===== src/Booking/Routes/Interleaved.antt =====
-- Other requests to services/booking/routes.py between a request and its repetition.
use car_flow_mvp.Base.{ℕ, ◌≡◌, sym, ◌∙◌, some, Option, String, List, [], ◌∷◌}
use car_flow_mvp.Base.Result.{ok}
use car_flow_mvp.Shared.Http.{Response}
use car_flow_mvp.Shared.Auth.{Claims}
use car_flow_mvp.Shared.Idempotency.{IdempotencyRow}
use car_flow_mvp.Shared.Endpoint.{serve}
use car_flow_mvp.Shared.Endpoint.Answered.{serve-Answered}
use car_flow_mvp.Shared.Endpoint.Others.{HasRow, serve-HasRow}
use car_flow_mvp.Shared.Endpoint.Repeated.{stored_answer}
use car_flow_mvp.Booking.Model.{BookingResponse, BookingDb, key_table}
use car_flow_mvp.Booking.Routes.Retry.{
  Request, target, request-LeavesKeys, booking_request_repeated,
}

-- A request as it arrives: who sends it, under which key, and with which body.
pub record Sent (H : Type 0) : Type 0 where
  pub asked : Request
  pub claims : Claims
  pub key : Option String
  pub consumer_id : String
  pub body : H
  pub now : ℕ

module _ {H : Type 0} (hash_request_body : H → String) where
  -- What a run of requests leaves of the database, one after the other, however each of them ends.
  unfoldable pub serve_all : List (Sent H) → BookingDb → BookingDb
  serve_all [] db = db
  serve_all (q ∷ qs) db =
      serve_all qs
        (serve key_table hash_request_body (target q.asked) q.claims q.key q.consumer_id q.body
          q.now db).1

  serve_all-HasRow :
      (c k : String) (row : IdempotencyRow BookingResponse) (qs : List (Sent H)) (db : BookingDb)
      → HasRow key_table hash_request_body c k row db
      → HasRow key_table hash_request_body c k row (serve_all qs db)
  unfolding serve_all
  serve_all-HasRow c k row [] db has = has
  serve_all-HasRow c k row (q ∷ qs) db has = serve_all-HasRow c k row qs _ (
      serve-HasRow key_table hash_request_body c k row (target q.asked) q.claims q.key q.consumer_id
        q.body q.now db (request-LeavesKeys q.asked q.claims) has)

  -- An answered request that is sent again, with its key and its body, after any other requests of any
  -- callers to the five endpoints, answered or refused, gets its answer again, and changes nothing of what they
  -- left.
  pub answer_is_final :
      (q : Request) (claims : Claims) (c k : String) (body : H) (now now' : ℕ)
      (others : List (Sent H)) (db : BookingDb) {response : Response BookingResponse}
      → (serve key_table hash_request_body (target q) claims (some k) c body now db).0 ≡ ok response
      → (let later =
            serve_all others
              (serve key_table hash_request_body (target q) claims (some k) c body now db).1 in
          serve key_table hash_request_body (target q) claims (some k) c body now' later
          ≡ (ok response, later))
  answer_is_final q claims c k body now now' others db answered =
      let a =
        serve-Answered key_table hash_request_body (target q) claims (some k) c body now db
          answered in
      let (row, found) =
        stored_answer key_table hash_request_body (target q) claims c k body now db a.valid a.role
          (request-LeavesKeys q claims) answered in
      booking_request_repeated hash_request_body q claims c k body now now' db _ a.valid a.role
        answered (serve_all-HasRow c k row others _ found ∙ sym found)
