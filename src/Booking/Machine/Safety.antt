-- ===== src/Booking/Machine/Safety.antt =====
-- What holds of every database that the booking service can have.
use car_flow_mvp.Base.{◌≡◌}
use car_flow_mvp.Base.Result.{ok}
use car_flow_mvp.Booking.Model.{Booking, BookingDb}
use car_flow_mvp.Booking.Settle.Operations.{
  accept-Settled, reject-Settled, authorized-Settled, authorization_failed-Settled,
  captured-Settled, capture_failed-Settled,
}
use car_flow_mvp.Booking.Settle.Inspections.{handover-Settled, return-Settled}
use car_flow_mvp.Booking.Create.{request-Created}
use car_flow_mvp.Booking.Invariant.{IsConsistent}
use car_flow_mvp.Booking.Invariant.Kept.{settled-IsConsistent}
use car_flow_mvp.Booking.Invariant.Begun.{empty-IsConsistent, created-IsConsistent}
use car_flow_mvp.Booking.Machine.{
  Operation, request, accept, reject, handover, take_back, authorized, authorization_failed,
  captured, capture_failed, run, Reach, start, commit, bookkeeping,
}

-- Every operation that returns keeps the invariant.
run-IsConsistent :
    (op : Operation) (b : Booking) (db db' : BookingDb)
    → run op db ≡ (ok b, db')
    → IsConsistent db
    → IsConsistent db'
unfolding run
run-IsConsistent (request r i e n v s t) b db db' h c =
    created-IsConsistent (request-Created r i e n v s t db db' b h).3 c
run-IsConsistent (accept e i n) b db db' h c =
    settled-IsConsistent (accept-Settled e i db db' b n h).3 c
run-IsConsistent (reject e i n) b db db' h c =
    settled-IsConsistent (reject-Settled e i db db' b n h).3 c
run-IsConsistent (handover i n o f p) b db db' h c =
    settled-IsConsistent (handover-Settled i n o f p db db' b h).3 c
run-IsConsistent (take_back e i n o f p) b db db' h c =
    settled-IsConsistent (return-Settled i n o f p db db' b e h).3 c
run-IsConsistent (authorized e i) b db db' h c =
    settled-IsConsistent (authorized-Settled e i db db' b h).3 c
run-IsConsistent (authorization_failed e i) b db db' h c =
    settled-IsConsistent (authorization_failed-Settled e i db db' b h).3 c
run-IsConsistent (captured e i) b db db' h c =
    settled-IsConsistent (captured-Settled e i db db' b h).3 c
run-IsConsistent (capture_failed e i) b db db' h c =
    settled-IsConsistent (capture_failed-Settled e i db db' b h).3 c

-- The invariant of the tables holds of every database that the service can have: no two rows that
-- hold dates of one vehicle overlap, the log has exactly the versions of each row, each row's status
-- is what its events say, and a car that was handed over has a reading.
pub Reach-IsConsistent : {db : BookingDb} → Reach db → IsConsistent db
Reach-IsConsistent start = empty-IsConsistent
Reach-IsConsistent (commit op b {db = db} {db' = db'} r h) =
    run-IsConsistent op b db db' h (Reach-IsConsistent r)
Reach-IsConsistent (bookkeeping ids rows r) =
    let c = Reach-IsConsistent r in
    record {
      apart = c.apart;
      log = c.log;
      versioned = c.versioned;
      replayed = c.replayed;
      equipped = c.equipped;
    }
