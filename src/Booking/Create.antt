-- ===== src/Booking/Create.antt =====
-- What `request_booking` of services/booking/service.py does when it returns.
use mathlib.Core.List.{append-nil}
use car_flow_mvp.Base.{
  ◌+◌, ℕ, ◌≤◌, ◌≡◌, refl, sym, ap, subst, ◌∙◌, Bool, true, false, none, List, [], ◌∷◌, ◌++◌, ⊤, not,
  arith,
}
use car_flow_mvp.Base.Result.{Result, ok, err, map_err}
use car_flow_mvp.Base.Exec.{
  bind-ok, raise_if-ok, pure-ok, lift, when, raise_if, pure, modify, ◌>>=◌, ◌>>◌,
}
use car_flow_mvp.Base.Table.{find, replace, replace-append_new}
use car_flow_mvp.Shared.Outbox.{OutboxRow}
use car_flow_mvp.Booking.Domain.{BookingStatus, instant, requested, booking_requested, same_mode}
use car_flow_mvp.Booking.Model.{Booking, BookingMessage, authorize_payment_requested, BookingDb}
use car_flow_mvp.Booking.ListingClient.{ListingResponse, VehicleInfo, ClientError, get_vehicle}
use car_flow_mvp.Booking.Repository.{
  vehicle_not_bookable, new_booking, Action, booking_key, conflicts, insert_booking,
  create_requested, append_events, save, has_event,
}
use car_flow_mvp.Booking.Service.{
  request_booking, not_bookable, is_approved, hold_amount, emit_authorize_payment_requested,
}
use car_flow_mvp.Booking.Settle.{logged, append_events-ok}
use car_flow_mvp.Booking.Settle.Operations.{message_row}

-- A new booking stands in the table: its id was free, its dates were free for its vehicle, and its
-- log holds one event, with version 2. `sent` was added to the outbox, and nothing else is changed.
pub record Created (db : BookingDb) (b : Booking) (sent : List (OutboxRow BookingMessage))
    (db' : BookingDb) : Type 0 where
  pub new : find booking_key b.id db.bookings ≡ none
  pub dates : b.start_date ≤ b.end_date
  pub apart : conflicts b db.bookings ≡ false
  pub status : b.status ≡ requested
  pub version : b.version ≡ 2
  pub free : has_event b.id 2 db.events ≡ false
  pub no_odometer : b.start_odometer ≡ none
  pub bookings : db'.bookings ≡ db.bookings ++ b ∷ []
  pub events :
      db'.events
      ≡ db.events ++ record { booking_id = b.id; version = 2; event = booking_requested } ∷ []
  pub outbox : db'.outbox ≡ db.outbox ++ sent
  pub inbox : db'.inbox ≡ db.inbox
  pub keys : db'.keys ≡ db.keys

insert_booking-ok :
    (b : Booking) (db db' : BookingDb) {x : ⊤}
    → insert_booking b db ≡ (ok x, db')
    → (b.start_date ≤ b.end_date)
      × (find booking_key b.id db.bookings ≡ none)
      × (conflicts b db.bookings ≡ false)
      × (db' ≡ record db { bookings = db.bookings ++ b ∷ [] })
unfolding insert_booking
insert_booking-ok b db db' h = ground arith

-- The exclusion constraint looks at neither the version nor the id.
conflicts_version :
    (b : Booking) (v : ℕ) (rows : List Booking)
    → conflicts (record b { version = v }) rows ≡ conflicts b rows
unfolding conflicts
conflicts_version b v [] = refl
conflicts_version b v (row ∷ rows) = rw (conflicts_version b v rows)

-- What a message sent under a condition adds to the outbox.
abbrev pub sent_if :
    Bool → (Booking → List (OutboxRow BookingMessage)) → Booking → List (OutboxRow BookingMessage)
sent_if true sent b = sent b
sent_if false sent b = []

inserted-ok :
    (row c : Booking) (db db' : BookingDb)
    → (do insert_booking row; pure row) db ≡ (ok c, db')
    → (c ≡ row) × (insert_booking row db ≡ (ok tt, db'))
inserted-ok row c db db' h =
    let (u, d, h1, rest) = bind-ok (insert_booking row) (λ _. pure row) db db' h in
    let (same, e) = pure-ok row d db' rest in
    (same, subst (λ (d : BookingDb). insert_booking row db ≡ (ok tt, d)) (sym e) h1)

-- What follows the insertion of the row: its first event, a message for an instant booking, and the
-- row once more.
abbrev opening : Booking → Bool → (Booking → List (OutboxRow BookingMessage)) → Action Booking
opening b0 now sent = do
  booking ← append_events b0 (booking_requested ∷ []) requested
  when now (modify (λ db. record db { outbox = db.outbox ++ sent booking }))
  save booking
  pure booking

module _ (b0 : Booking) (new_status : b0.status ≡ requested) (new_version : b0.version ≡ 1)
    (no_odometer : b0.start_odometer ≡ none) where
  closing_if :
      (x b : Booking) (mid db' : BookingDb) (now : Bool)
      (sent : Booking → List (OutboxRow BookingMessage))
      → (do when now (modify (λ db. record db { outbox = db.outbox ++ sent x })); save x; pure x)
          mid
        ≡ (ok b, db')
      → (b ≡ x)
        × (db' ≡ record mid {
          outbox = mid.outbox ++ sent_if now sent x;
          bookings = replace booking_key x mid.bookings;
        })
  unfolding save
  closing_if x b mid db' true sent h = pure-ok x _ db' h
  closing_if x b mid db' false sent h =
      let (same, saved) = pure-ok x _ db' h in
      (
        same,
        saved
            ∙ ap
                (λ (rows : List (OutboxRow BookingMessage)). record mid {
                  outbox = rows;
                  bookings = replace booking_key x mid.bookings;
                })
                (sym (append-nil mid.outbox)),
      )

  -- The row once its first event is logged.
  abbrev opened : Booking
  opened = record b0 { status = requested; version = 2 }

  opened_apart : (rows : List Booking) → conflicts b0 rows ≡ false → conflicts opened rows ≡ false
  opened_apart rows apart =
      ap (λ (st : BookingStatus). conflicts (record b0 { status = st; version = 2 }) rows)
        (sym new_status)
      ∙ conflicts_version b0 2 rows
      ∙ apart

  pub opening-Created :
      (db d1 db' : BookingDb) (b : Booking) (now : Bool)
      (sent : Booking → List (OutboxRow BookingMessage))
      → insert_booking b0 db ≡ (ok tt, d1)
      → opening b0 now sent d1 ≡ (ok b, db')
      → Created db b (sent_if now sent b) db'
  opening-Created db d1 db' b now sent inserted h =
      let (dates, new, apart, same1) = insert_booking-ok b0 db d1 inserted in
      let (x, mid, h1, rest) =
        bind-ok (append_events b0 (booking_requested ∷ []) requested) _ d1 db' h in
      let (moved, same2, free) =
        append_events-ok b0 x (booking_requested ∷ []) requested d1 mid h1 in
      let (same, saved) = closing_if x b mid db' now sent rest in
      let row : x ≡ opened =
        moved ∙ ap (λ (v : ℕ). record b0 { status = requested; version = v + 1 }) new_version in
      let all =
        saved
        ∙ ap
            (λ (y : Booking). record mid {
              outbox = mid.outbox ++ sent_if now sent y;
              bookings = replace booking_key y mid.bookings;
            })
            row in
      let mid_is =
        same2
        ∙ ap
            (λ (d : BookingDb). record d {
              events = d.events ++ logged b0.id b0.version (booking_requested ∷ []);
            })
            same1 in
      let step = λ (d : BookingDb). record d {
        outbox = d.outbox ++ sent_if now sent opened;
        bookings = replace booking_key opened d.bookings;
      } in
      let done = all ∙ ap step mid_is in
      subst (λ (y : Booking). Created db y (sent_if now sent y) db') (sym (same ∙ row))
        (record {
          new = new;
          dates = dates;
          apart = opened_apart db.bookings apart;
          status = refl;
          version = refl;
          free =
              ap (λ (d : BookingDb). has_event b0.id 2 d.events) (sym same1)
              ∙ free 2 (omega arith) (omega arith);
          no_odometer = no_odometer;
          bookings =
              ap (λ (d : BookingDb). d.bookings) done
              ∙ replace-append_new booking_key b0 opened db.bookings new refl;
          events =
              ap (λ (d : BookingDb). d.events) done
              ∙ ap
                  (λ (v : ℕ).
                    db.events
                    ++ record { booking_id = b0.id; version = v + 1; event = booking_requested }
                      ∷ [])
                  new_version;
          outbox = ap (λ (d : BookingDb). d.outbox) done;
          inbox = ap (λ (d : BookingDb). d.inbox) done;
          keys = ap (λ (d : BookingDb). d.keys) done;
        })

vehicle-ok :
    (response : ListingResponse) (v : VehicleInfo) (db db' : BookingDb)
    → lift (map_err not_bookable (get_vehicle response)) db ≡ (ok v, db')
    → (get_vehicle response ≡ ok v) × (db' ≡ db)
vehicle-ok response v db db' h = go (get_vehicle response) h
  where
    go :
        (r : Result ClientError VehicleInfo)
        → lift (map_err not_bookable r) db ≡ (ok v, db')
        → (r ≡ ok v) × (db' ≡ db)
    go (ok x) h = (cc, cc)
    go (err e) h = cc

not-false : (b : Bool) → not b ≡ false → b ≡ true
not-false b h = ground arith

-- The row that a request for a vehicle makes.
abbrev pub row_for :
    VehicleInfo → (booking_id renter_id vehicle_id start_date end_date : ℕ) → Booking
row_for vehicle booking_id renter_id vehicle_id start_date end_date =
    new_booking booking_id vehicle_id vehicle.host_id renter_id start_date end_date
      vehicle.daily_price_cents vehicle.daily_mileage_limit vehicle.booking_mode

abbrev pub authorize_row : ℕ → Booking → List (OutboxRow BookingMessage)
authorize_row event_id b =
    message_row event_id b (authorize_payment_requested b.id b.renter_id (hold_amount b))

-- A request that returns has found an approved vehicle and created a booking for it; for a vehicle
-- that is booked at once it asks for the authorization of the payment.
pub request-Created :
    (response : ListingResponse) (booking_id event_id renter_id vehicle_id start_date end_date : ℕ)
    (db db' : BookingDb) (b : Booking)
    → request_booking response booking_id event_id renter_id vehicle_id start_date end_date db
      ≡ (ok b, db')
    → (vehicle : VehicleInfo) × (get_vehicle response ≡ ok vehicle)
      × (is_approved vehicle.approval_status ≡ true)
      × Created db b
          (sent_if (same_mode vehicle.booking_mode instant) (authorize_row event_id) b)
          db'
unfolding request_booking create_requested emit_authorize_payment_requested
request-Created response booking_id event_id renter_id vehicle_id start_date end_date db db' b h =
    let (vehicle, d1, h1, r1) =
      bind-ok (lift (map_err not_bookable (get_vehicle response))) _ db db' h in
    let (read, e1) = vehicle-ok response vehicle db d1 h1 in
    let (u, d2, h2, r2) =
      bind-ok (raise_if (not (is_approved vehicle.approval_status)) vehicle_not_bookable) _ d1 db'
        r1 in
    let (approved_, e2) = raise_if-ok _ _ d1 d2 h2 in
    let row = row_for vehicle booking_id renter_id vehicle_id start_date end_date in
    let now = same_mode vehicle.booking_mode instant in
    let go_on = λ (x : Booking). opening x now (authorize_row event_id) in
    let (c, d3, h3, r3) = bind-ok (insert_booking row >> pure row) go_on d2 db' r2 in
    let (same, inserted) = inserted-ok row c d2 d3 h3 in
    let last = subst (λ (x : Booking). go_on x d3 ≡ (ok b, db')) same r3 in
    let start = subst (λ (d : BookingDb). insert_booking row d ≡ (ok tt, d3)) (e2 ∙ e1) inserted in
    (
      vehicle,
      read,
      not-false _ approved_,
      opening-Created row refl refl refl db d3 db' b now (authorize_row event_id) start last,
    )
