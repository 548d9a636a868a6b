-- ===== src/Payment/Ledger/Kept.antt =====
-- Each command of the payment service keeps the ledger in step with the payments.
use car_flow_mvp.Base.{
  ℕ, ◌+◌, ◌≡◌, ◌≢◌, refl, sym, ap, ◌∙◌, true, false, ◌&&◌, Option, none, some, String, List, [],
  ◌∷◌, ◌++◌, Bool-cases, inl, inr, arith, ◌==◌, ==→eq, subst, if◌then◌else◌,
}
use car_flow_mvp.Base.Int.{ℤ}
use car_flow_mvp.Base.Table.{find, replace, find-replace, find-append_one, find-key}
use car_flow_mvp.Payment.Model.{
  captured, capture_failed, Payment, Direction, debit, credit, Reason, rental, mileage_overage,
  LedgerEntry, PaymentDb, booking_of,
}
use car_flow_mvp.Payment.Service.{StripeClient, Ids, status_is_authorized}
use car_flow_mvp.Payment.Service.Capturing.{
  ledger_pair, CaptureEffect, ignored, failed, settled, settled_with_overage,
}
use car_flow_mvp.Payment.Service.Authorizing.{
  AuthorizeEffect, repeated, opened, new_payment, opened_status,
}
use car_flow_mvp.Payment.Ledger.{
  same_reason, entries, charges, unsettled_has_no_overage, IsSettledOnce,
}

entries-append :
    (booking_id : ℕ) (direction : Direction) (reason : Reason) (xs ys : List LedgerEntry)
    → entries booking_id direction reason (xs ++ ys)
      ≡ entries booking_id direction reason xs + entries booking_id direction reason ys
unfolding entries
entries-append b d r [] ys = ground arith
entries-append b d r (x ∷ xs) ys = ground (arith, entries-append b d r xs ys)

entries-ledger_pair :
    (p : Payment) (booking_id host_id : ℕ) (amount : ℤ) (why : Reason) (b : ℕ) (d : Direction)
    (r : Reason)
    → entries b d r (ledger_pair p booking_id host_id amount why)
      ≡ (if (booking_id == b) && same_reason why r then 1 else 0)
unfolding entries
entries-ledger_pair p i n a why b debit r = ground arith
entries-ledger_pair p i n a why b credit r = ground arith

-- A payment's row is changed and its booking is charged for it.
charges-replace :
    (c : Option Payment → ℕ) (n : ℕ) (rows : List Payment) (b booking_id : ℕ) (p w : Payment)
    → find booking_of booking_id rows ≡ some p
    → w.booking_id ≡ booking_id
    → c (some w) ≡ c (some p) + n
    → c (find booking_of b (replace booking_of w rows))
      ≡ c (find booking_of b rows) + (if booking_id == b then n else 0)
charges-replace c n rows b i p w found key more = elim (Bool-cases (i == b)) [
  | inl here ↦
      let same = ==→eq i b here in
      let here' : find booking_of b rows ≡ some p =
        ap (λ k. find booking_of k rows) (sym same) ∙ found in
      let own : (w.booking_id == b) ≡ true = ap (λ k. k == b) key ∙ here in
      ground (arith, find-replace booking_of b w rows)
  | inr other ↦
      let own : (w.booking_id == b) ≡ false = ap (λ k. k == b) key ∙ other in
      ground (arith, find-replace booking_of b w rows)
]

no_overage-replace :
    (rows : List Payment) (b : ℕ) (w : Payment)
    → status_is_authorized w.status ≡ false
    → unsettled_has_no_overage (find booking_of b rows) ≡ true
    → unsettled_has_no_overage (find booking_of b (replace booking_of w rows)) ≡ true
no_overage-replace rows b w done before = ground (arith, find-replace booking_of b w rows)

entries_of_two :
    (p : Payment) (i n : ℕ) (hold overage : ℤ) (ledger : List LedgerEntry) (b : ℕ) (d : Direction)
    (r : Reason)
    → entries b d r
        (ledger ++ (ledger_pair p i n hold rental ++ ledger_pair p i n overage mileage_overage))
      ≡ entries b d r ledger + (if i == b then 1 else 0)
entries_of_two p i n hold overage ledger b d rental = ground (
  arith,
  entries-append b d rental ledger
      (ledger_pair p i n hold rental ++ ledger_pair p i n overage mileage_overage),
  entries-append b d rental (ledger_pair p i n hold rental)
      (ledger_pair p i n overage mileage_overage),
  entries-ledger_pair p i n hold rental b d rental,
  entries-ledger_pair p i n overage mileage_overage b d rental,
)
entries_of_two p i n hold overage ledger b d mileage_overage = ground (
  arith,
  entries-append b d mileage_overage ledger
      (ledger_pair p i n hold rental ++ ledger_pair p i n overage mileage_overage),
  entries-append b d mileage_overage (ledger_pair p i n hold rental)
      (ledger_pair p i n overage mileage_overage),
  entries-ledger_pair p i n hold rental b d mileage_overage,
  entries-ledger_pair p i n overage mileage_overage b d mileage_overage,
)

entries_of_one :
    (p : Payment) (i n : ℕ) (hold : ℤ) (ledger : List LedgerEntry) (b : ℕ) (d : Direction)
    (r : Reason)
    → entries b d r (ledger ++ ledger_pair p i n hold rental)
      ≡ entries b d r ledger + (if i == b then (if same_reason rental r then 1 else 0) else 0)
entries_of_one p i n hold ledger b d r = ground (
  arith,
  entries-append b d r ledger (ledger_pair p i n hold rental),
  entries-ledger_pair p i n hold rental b d r,
)

charged_once :
    (p : Payment) (r : Reason)
    → status_is_authorized p.status ≡ true
    → charges r (some (record p { status = captured }))
      ≡ charges r (some p) + (if same_reason rental r then 1 else 0)
charged_once p rental held = ground arith
charged_once p mileage_overage held = ground arith

not_charged :
    (p : Payment) (r : Reason)
    → status_is_authorized p.status ≡ true
    → charges r (some (record p { status = capture_failed })) ≡ charges r (some p) + 0
not_charged p rental held = ground arith
not_charged p mileage_overage held = ground arith

charged_twice :
    (p : Payment) (intent : String) (overage : ℤ) (r : Reason)
    → status_is_authorized p.status ≡ true
    → unsettled_has_no_overage (some p) ≡ true
    → charges r (
        some (record p {
          status = captured;
          stripe_overage_intent_id = some intent;
          overage_cents = overage;
        }))
      ≡ charges r (some p) + 1
charged_twice p intent overage rental held before = ground arith
charged_twice p intent overage mileage_overage held before = ground arith

module _ (stripe : StripeClient) (ids : Ids) (i n : ℕ) (hold overage : ℤ) where
  pub capture-IsSettledOnce :
      {db db' : PaymentDb}
      → CaptureEffect stripe ids i n hold overage db db'
      → IsSettledOnce db
      → IsSettledOnce db'
  capture-IsSettledOnce {db} {db'} (ignored _ e) c = subst IsSettledOnce (sym e) c
  capture-IsSettledOnce {db} {db'} (failed p found held e) c = subst IsSettledOnce (sym e) (record {
    counted = λ b d r. ground (
      arith,
      c.counted b d r,
      charges-replace (charges r) 0 db.payments b i p (record p { status = capture_failed }) found
          (find-key booking_of i p db.payments found) (not_charged p r held),
    );
    no_overage_yet = λ b.
        no_overage-replace db.payments b (record p { status = capture_failed }) refl
          (c.no_overage_yet b);
  })
  capture-IsSettledOnce {db} {db'} (settled p found held _ e) c =
      subst IsSettledOnce (sym e) (record {
        counted = λ b d r.
            entries_of_one p i n hold db.ledger b d r
            ∙ ap (λ k. k + (if i == b then (if same_reason rental r then 1 else 0) else 0))
                (c.counted b d r)
            ∙ sym (
                charges-replace (charges r) (if same_reason rental r then 1 else 0) db.payments b i
                  p (record p { status = captured }) found
                  (find-key booking_of i p db.payments found) (charged_once p r held));
        no_overage_yet = λ b.
            no_overage-replace db.payments b (record p { status = captured }) refl
              (c.no_overage_yet b);
      })
  capture-IsSettledOnce {db} {db'} (settled_with_overage p intent found held _ _ e) c =
      let w : Payment = record p {
        status = captured;
        stripe_overage_intent_id = some intent;
        overage_cents = overage;
      } in
      subst IsSettledOnce (sym e) (record {
        counted = λ b d r.
            entries_of_two p i n hold overage db.ledger b d r
            ∙ ap (λ k. k + (if i == b then 1 else 0)) (c.counted b d r)
            ∙ sym (
                charges-replace (charges r) 1 db.payments b i p w found
                  (find-key booking_of i p db.payments found)
                  (charged_twice p intent overage r held
                    (ap unsettled_has_no_overage (sym found) ∙ c.no_overage_yet i)));
        no_overage_yet = λ b. no_overage-replace db.payments b w refl (c.no_overage_yet b);
      })

  opened_charges :
      (r : Reason) (p : Payment) (rows : List Payment) (b : ℕ)
      → p.stripe_overage_intent_id ≡ none
      → p.status ≢ captured
      → charges r (find booking_of b (rows ++ p ∷ [])) ≡ charges r (find booking_of b rows)
  opened_charges rental p rows b none_yet ne = ground (arith, find-append_one booking_of b p rows)
  opened_charges mileage_overage p rows b none_yet ne =
      ground (arith, find-append_one booking_of b p rows)

  opened-ne-captured :
      (intent : Option String) → opened_status stripe ids i n hold intent ≢ captured
  opened-ne-captured none = λ same. cc
  opened-ne-captured (some intent) = λ same. cc

  pub authorize-IsSettledOnce :
      {db db' : PaymentDb}
      → AuthorizeEffect stripe ids i n hold db db'
      → IsSettledOnce db
      → IsSettledOnce db'
  authorize-IsSettledOnce {db} {db'} (repeated e) c = subst IsSettledOnce (sym e) c
  authorize-IsSettledOnce {db} {db'} (opened intent found e) c =
      let p : Payment =
        new_payment stripe ids i n hold (opened_status stripe ids i n hold intent) intent in
      subst IsSettledOnce (sym e) (record {
        counted = λ b d r.
            c.counted b d r
            ∙ sym (opened_charges r p db.payments b refl (opened-ne-captured intent));
        no_overage_yet =
            λ b. ground (arith, c.no_overage_yet b, find-append_one booking_of b p db.payments);
      })
