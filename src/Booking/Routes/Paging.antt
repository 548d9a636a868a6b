-- ===== src/Booking/Routes/Paging.antt =====
-- The list of all bookings: `list_bookings` of services/booking/routes.py.
use car_flow_mvp.Base.{
  ◌≡◌, refl, ap, ◌∙◌, true, Bool, if◌then◌else◌, ◌&&◌, Option, none, some, List,
}
use car_flow_mvp.Base.Int.{ℤ, pos, ◌+ℤ◌}
use car_flow_mvp.Base.Result.{err}
use car_flow_mvp.Shared.Http.{server_error}
use car_flow_mvp.Base.Exec.{caught, continue, or_raise}
use car_flow_mvp.Shared.Auth.{Claims, admin, same_role, require_role}
use car_flow_mvp.Shared.Paging.{sent_page, read_page, answer_page, sent_page-answer}
use car_flow_mvp.Booking.Model.{Booking, BookingDb}
use car_flow_mvp.Booking.Repository.{list_all}
use car_flow_mvp.Booking.Service.{list_all_bookings}
use car_flow_mvp.Booking.Routes.{booking_response, list_bookings}

module _ (can_send : ℤ → Bool) (claims : Claims) (limit offset : ℤ) (db : BookingDb) where
  reads :
      (o : Option (List Booking))
      → same_role claims.role admin ≡ true
      → sent_page can_send (limit +ℤ pos 1) offset db.bookings ≡ o
      → list_bookings can_send claims limit offset db
        ≡ (read_page booking_response limit offset o, db)
  unfolding list_bookings list_all_bookings list_all require_role
  reads none role e = rw (role, e, or_raise, caught, continue) refl
  reads (some rows) role e = rw (role, e, or_raise, caught, continue) refl

  -- What an administrator gets for any limit and offset, where the database's driver can send both the
  -- limit plus one and the offset. If neither is negative: the bookings from the offset on, at most as
  -- many as the limit, in the order of the table, and the offset of the next page exactly if bookings are
  -- left. For the limit -1 and an offset that is not negative: no bookings, and the offset less one as the
  -- next. For any other negative number, and for a number that the driver cannot send: the answer 500.
  -- Reading changes nothing.
  pub list_bookings-page :
      same_role claims.role admin ≡ true
      → list_bookings can_send claims limit offset db ≡ (
        if can_send (limit +ℤ pos 1) && can_send offset
            then answer_page booking_response limit offset db.bookings
            else err server_error,
        db,
      )
  list_bookings-page role =
      reads _ role refl
      ∙ ap (λ r. (r, db)) (sent_page-answer booking_response can_send limit offset db.bookings)
