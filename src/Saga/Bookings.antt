-- ===== src/Saga/Bookings.antt =====
-- An operation of the booking service keeps the bookings in step with the payments, where what a payment
-- message says is true.
use car_flow_mvp.Base.{
  ℕ, ◌≡◌, refl, ap, subst, ◌∙◌, Bool, true, Option, some, List, ◌==◌, ==→eq, Bool-cases, inl, inr,
  arith,
}
use car_flow_mvp.Base.Result.{ok}
use car_flow_mvp.Base.Table.{find}
use car_flow_mvp.Shared.Outbox.{OutboxRow}
use car_flow_mvp.Booking.Domain
use car_flow_mvp.Booking.Domain.{BookingState, Transition}
use car_flow_mvp.Booking.Domain.Lifecycle.{
  Command, accept, reject, confirm, cancel, handover, take_back, complete, note_failure, decide,
}
use car_flow_mvp.Booking.Model.{Booking, BookingMessage, BookingDb}
use car_flow_mvp.Booking.Repository.{booking_key, state_of}
use car_flow_mvp.Booking.Settle.{Settled}
use car_flow_mvp.Booking.Settle.Operations.{
  accept-Settled, reject-Settled, authorized-Settled, authorization_failed-Settled,
  captured-Settled, capture_failed-Settled,
}
use car_flow_mvp.Booking.Settle.Inspections.{handover-Settled, return-Settled}
use car_flow_mvp.Booking.Create.{Created, request-Created}
use car_flow_mvp.Booking.Invariant.Kept.{find_settled}
use car_flow_mvp.Booking.Invariant.Begun.{find_created}
use car_flow_mvp.Booking.Machine.{
  Operation, request, accept as accepting, reject as rejecting, handover as handing_over,
  take_back as taking_back, authorized, authorization_failed, captured, capture_failed, run,
}
use car_flow_mvp.Payment.Model.{PaymentStatus}
use car_flow_mvp.Saga.Statuses.{was_held, was_captured, was_refused, backed}

module _ (st : ℕ → Option PaymentStatus) where
  -- The status of every stored booking is one that its payment allows.
  abbrev pub IsBacked : BookingDb → Type 0
  IsBacked db =
      (i : ℕ) (b : Booking)
      → find booking_key i db.bookings ≡ some b
      → backed b.status (st i) ≡ true

  -- What a transition takes for granted about the payment.
  abbrev fits : Command → Option PaymentStatus → Bool
  fits confirm o = was_held o
  fits cancel o = was_refused o
  fits complete o = was_captured o
  fits _ o = true

  decide-backed :
      (c : Command) (state : BookingState) (t : Transition) (o : Option PaymentStatus)
      → decide c state ≡ ok t
      → fits c o ≡ true
      → backed state.status o ≡ true
      → backed t.next_status o ≡ true
  unfolding decide Domain.accept_request Domain.reject_request
      Domain.confirm_after_payment_authorized Domain.cancel_after_payment_authorization_failed
      Domain.complete_after_payment_captured Domain.note_payment_capture_failed
      Domain.record_handover Domain.record_return
  decide-backed accept s t o h fit before = ground arith
  decide-backed reject s t o h fit before = ground arith
  decide-backed confirm s t o h fit before = ground arith
  decide-backed cancel s t o h fit before = ground arith
  decide-backed (handover m f p) s t o h fit before = ground arith
  decide-backed (take_back m f p) s t o h fit before = ground arith
  decide-backed complete s t o h fit before = ground arith
  decide-backed note_failure s t o h fit before = ground arith

  settling_keeps_backing :
      {c : Command} {db db' : BookingDb} {before after : Booking}
      {sent : List (OutboxRow BookingMessage)}
      → Settled c db before after sent db'
      → fits c (st before.id) ≡ true
      → IsBacked db
      → IsBacked db'
  settling_keeps_backing {c} {db} {db'} {before} {after} s fit kept i b found =
      elim (Bool-cases (before.id == i)) [
        | inr other ↦ kept i b (let e = find_settled s i in ground arith)
        | inl mine ↦
            let same : after ≡ b = let e = find_settled s i in ground arith in
            let here = ==→eq before.id i mine in
            let moved : after.status ≡ s.transition.next_status = ap Booking.status s.moved in
            let now =
              decide-backed c (state_of before) s.transition (st before.id) s.allowed fit
                (kept before.id before s.found) in
            subst (λ (x : Booking). backed x.status (st i) ≡ true) same
              (subst (λ (k : ℕ). backed after.status (st k) ≡ true) here
                (ap (λ x. backed x (st before.id)) moved ∙ now))
      ]

  creating_keeps_backing :
      {db db' : BookingDb} {b : Booking} {sent : List (OutboxRow BookingMessage)}
      → Created db b sent db'
      → IsBacked db
      → IsBacked db'
  creating_keeps_backing {db} {db'} {b} n kept i x found = elim (Bool-cases (b.id == i)) [
    | inr other ↦ kept i x (let e = find_created n i in ground arith)
    | inl mine ↦
        let same : b ≡ x = let e = find_created n i in ground arith in
        subst (λ (y : Booking). backed y.status (st i) ≡ true) same
          (ap (λ y. backed y (st i)) n.status)
  ]

  -- What an operation takes for granted about payments.
  abbrev pub is_due : Operation → Bool
  is_due (authorized event_id booking_id) = was_held (st booking_id)
  is_due (authorization_failed event_id booking_id) = was_refused (st booking_id)
  is_due (captured event_id booking_id) = was_captured (st booking_id)
  is_due _ = true

  pub run-IsBacked :
      (op : Operation) (b : Booking) (db db' : BookingDb)
      → run op db ≡ (ok b, db')
      → is_due op ≡ true
      → IsBacked db
      → IsBacked db'
  unfolding run
  run-IsBacked (request r i e n v s t) b db db' h due kept =
      creating_keeps_backing (request-Created r i e n v s t db db' b h).3 kept
  run-IsBacked (accepting e i n) b db db' h due kept =
      settling_keeps_backing (accept-Settled e i db db' b n h).3 refl kept
  run-IsBacked (rejecting e i n) b db db' h due kept =
      settling_keeps_backing (reject-Settled e i db db' b n h).3 refl kept
  run-IsBacked (handing_over i n o f p) b db db' h due kept =
      settling_keeps_backing (handover-Settled i n o f p db db' b h).3 refl kept
  run-IsBacked (taking_back e i n o f p) b db db' h due kept =
      settling_keeps_backing (return-Settled i n o f p db db' b e h).3 refl kept
  run-IsBacked (authorized e i) b db db' h due kept =
      let d = authorized-Settled e i db db' b h in
      settling_keeps_backing d.3 (ap (λ k. was_held (st k)) d.1 ∙ due) kept
  run-IsBacked (authorization_failed e i) b db db' h due kept =
      let d = authorization_failed-Settled e i db db' b h in
      settling_keeps_backing d.3 (ap (λ k. was_refused (st k)) d.1 ∙ due) kept
  run-IsBacked (captured e i) b db db' h due kept =
      let d = captured-Settled e i db db' b h in
      settling_keeps_backing d.3 (ap (λ k. was_captured (st k)) d.1 ∙ due) kept
  run-IsBacked (capture_failed e i) b db db' h due kept =
      settling_keeps_backing (capture_failed-Settled e i db db' b h).3 refl kept
