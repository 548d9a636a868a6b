-- ===== src/Search/Backfill/Complete.antt =====
-- The backfill ends, and indexes every approved vehicle.
use mathlib.Core.List.{append-nil}
use car_flow_mvp.Base.{
  ℕ, zero, suc, ◌+◌, ◌-◌, ◌<◌, ◌≡◌, refl, sym, ap, ◌∙◌, true, false, none, some, List, [], ◌∷◌,
  ◌++◌, length, length-append, take, drop, map, ltb, inl, inr, Bool-cases, All, arith,
}
use car_flow_mvp.Base.Int.{pos}
use car_flow_mvp.Base.Result.{Result, ok}
use car_flow_mvp.Base.Exec.{continue, caught}
use car_flow_mvp.Base.Table.{find}
use car_flow_mvp.Shared.Auth.{Claims, admin, same_role}
use car_flow_mvp.Shared.Paging.{whole_page, length-drop}
use car_flow_mvp.Booking.ListingClient.{approved}
use car_flow_mvp.Listing.{Vehicle, ListingDb, with_status, vehicle_key}
use car_flow_mvp.Listing.Routes.{vehicle_response}
use car_flow_mvp.Listing.Routes.Listed.{list_vehicles-page}
use car_flow_mvp.Search.Documents.{Document, vehicle_to_document}
use car_flow_mvp.Search.Stores.{Elastic, Redis}
use car_flow_mvp.Search.Service.{Stores, upsert_vehicle, handle_vehicle_event}
use car_flow_mvp.Search.Projection.{shown, after}
use car_flow_mvp.Search.Backfill.{
  BackfillError, index_items, get_page, backfill_pages, run_backfill,
}
use car_flow_mvp.Search.Backfill.Refreshed.{
  refreshed, IsUnique, IsListed, with_status-IsListed, refreshed-append, refreshed_same,
  refreshed-shown, take-drop, drop-drop, nothing_left, All-take, All-drop,
}

module _ {S R C : Type 0} (elastic : Elastic S C) (redis : Redis R)
    (answers : (k : ℕ) (d : Document C) (s : S) → (s' : S) × (elastic.index k d s ≡ some s')) where
  -- A run that returns the number of the vehicles, added to a count, and has indexed them.
  abbrev Indexes : Result BackfillError ℕ × Stores S R → ℕ → List (Vehicle C) → Stores S R → Type 0
  Indexes out n vs s =
      (s' : Stores S R) × (out ≡ (ok (n + length vs), s'))
      × ((i : ℕ) → elastic.get s'.es i ≡ refreshed (elastic.get s.es) vs i)

  upserted :
      (v : Vehicle C) (s : Stores S R)
      → IsListed v
      → (s' : Stores S R) × (handle_vehicle_event elastic redis v s ≡ (ok tt, s'))
        × ((i : ℕ) → elastic.get s'.es i ≡ after v (elastic.get s.es) i)
  unfolding handle_vehicle_event upsert_vehicle
  upserted v s listed =
      let (es, e) = answers v.id (vehicle_to_document v) s.es in
      (
        record s { es = es },
        rw (listed, e) refl,
        λ i. rw (listed) (elastic.get-index v.id (vehicle_to_document v) s.es es e i),
      )

  items_indexed :
      (vs : List (Vehicle C)) (n : ℕ) (s : Stores S R)
      → All IsListed vs
      → Indexes (index_items elastic redis (map vehicle_response vs) n s) n vs s
  unfolding index_items
  items_indexed [] n s h = (s, ap (λ (m : ℕ). (ok m, s)) (omega arith), λ i. refl)
  items_indexed (v ∷ vs) n s h =
      let (s1, step, held) = upserted v s h.0 in
      let (s2, rest, more) = items_indexed vs (n + 1) s1 h.1 in
      let here : index_items elastic redis (map vehicle_response (v ∷ vs)) n s
          ≡ index_items elastic redis (map vehicle_response vs) (n + 1) s1 =
        rw (step, caught, continue) refl in
      let sum : n + 1 + length vs ≡ n + suc (length vs) = omega arith in
      (
        s2,
        here ∙ rest ∙ ap (λ (m : ℕ). (ok m, s2)) sum,
        λ i. more i ∙ refreshed_same vs (elastic.get s1.es) (after v (elastic.get s.es)) held i,
      )

  module _ (claims : Claims) (role : same_role claims.role admin ≡ true) (l : ℕ)
      (db : ListingDb C) where
    abbrev listed_rows : List (Vehicle C)
    listed_rows = with_status approved db.vehicles

    got :
        (offset : ℕ)
        → get_page elastic redis claims (suc l) db (pos offset)
          ≡ ok (whole_page vehicle_response (suc l) offset listed_rows)
    got offset = rw (list_vehicles-page claims (pos (suc l)) (pos offset) db role) refl

    module _ (fuel offset n count : ℕ) (s s1 : Stores S R)
        (here : index_items elastic redis
            (map vehicle_response (take (suc l) (drop offset listed_rows)))
            n
            s
          ≡ (ok count, s1)) where
      page_before :
          ltb (offset + suc l) (length listed_rows) ≡ true
          → backfill_pages elastic redis claims (suc l) db (suc fuel) (pos offset) n s
            ≡ backfill_pages elastic redis claims (suc l) db fuel (pos (offset + suc l)) count s1
      unfolding backfill_pages
      page_before more = rw (got offset, here, more) refl

      last_page :
          ltb (offset + suc l) (length listed_rows) ≡ false
          → backfill_pages elastic redis claims (suc l) db (suc fuel) (pos offset) n s
            ≡ (ok count, s1)
      unfolding backfill_pages
      last_page last = rw (got offset, here, last) refl

    pages_indexed :
        (fuel offset n : ℕ) (s : Stores S R)
        → length listed_rows - offset < fuel
        → Indexes
            (backfill_pages elastic redis claims (suc l) db fuel (pos offset) n s)
            n
            (drop offset listed_rows)
            s
    pages_indexed zero offset n s enough = ground arith
    pages_indexed (suc fuel) offset n s enough =
        let rows = drop offset listed_rows in
        let (s1, here, held) = items_indexed (take (suc l) rows) n s (
          All-take (suc l) rows (All-drop offset listed_rows (with_status-IsListed db.vehicles))) in
        let count = n + length (take (suc l) rows) in
        let parts = take-drop (suc l) rows in
        elim (Bool-cases (ltb (offset + suc l) (length listed_rows))) [
          | inl more ↦
              let (s2, there, held') =
                pages_indexed fuel (offset + suc l) count s1 (ground arith) in
              let left = drop-drop offset (suc l) listed_rows in
              let sum : count + length (drop (offset + suc l) listed_rows) ≡ n + length rows =
                omega (
                  arith,
                  ap length parts,
                  ap length left,
                  length-append (take (suc l) rows) (drop (suc l) rows),
                ) in
              (
                s2,
                page_before fuel offset n count s s1 here more
                    ∙ there
                    ∙ ap (λ (m : ℕ). (ok m, s2)) sum,
                λ i.
                    held' i
                    ∙ ap (λ vs. refreshed (elastic.get s1.es) vs i) left
                    ∙ refreshed_same (drop (suc l) rows) (elastic.get s1.es)
                        (refreshed (elastic.get s.es) (take (suc l) rows)) held i
                    ∙ sym (
                        refreshed-append (elastic.get s.es) (take (suc l) rows) (drop (suc l) rows)
                          i)
                    ∙ ap (λ vs. refreshed (elastic.get s.es) vs i) parts,
              )
          | inr last ↦
              let none_left : drop (suc l) rows ≡ [] =
                nothing_left (drop (suc l) rows)
                  (ground (arith, length-drop (suc l) rows, length-drop offset listed_rows)) in
              let whole : take (suc l) rows ≡ rows =
                sym (append-nil (take (suc l) rows))
                ∙ ap (λ vs. take (suc l) rows ++ vs) (sym none_left)
                ∙ parts in
              (
                s1,
                last_page fuel offset n count s s1 here last
                    ∙ ap (λ vs. (ok (n + length vs), s1)) whole,
                λ i. held i ∙ ap (λ vs. refreshed (elastic.get s.es) vs i) whole,
              )
        ]

  -- The backfill ends: with fuel for more pages than there are approved vehicles it returns their
  -- number, as long as Elasticsearch answers and the token has the role of administrators; and an index
  -- that was empty has for each id the document of the vehicle stored under it, if it is approved.
  pub backfill_completes :
      (claims : Claims) (db : ListingDb C) (fuel : ℕ) (s : Stores S R)
      → same_role claims.role admin ≡ true
      → IsUnique db.vehicles
      → ((i : ℕ) → elastic.get s.es i ≡ none)
      → length (with_status approved db.vehicles) < fuel
      → (s' : Stores S R) × (run_backfill elastic redis claims db fuel s
          ≡ (ok (length (with_status approved db.vehicles)), s'))
        × ((i : ℕ) → elastic.get s'.es i ≡ shown (find vehicle_key i db.vehicles))
  unfolding run_backfill
  backfill_completes claims db fuel s role unique empty enough =
      let (s', run, held) = pages_indexed claims role 99 db fuel 0 0 s (omega (arith, enough)) in
      (
        s',
        run ∙ ap (λ (m : ℕ). (ok m, s')) (omega arith),
        λ i. held i ∙ refreshed-shown db.vehicles (elastic.get s.es) i unique (empty i),
      )
