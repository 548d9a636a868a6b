-- ===== src/Tests/Queries.antt =====
-- A search engine that goes over its documents one by one, and a search in it. The distance between two
-- places is not looked at.
use text.Mathlib.Text.{◌==◌ as str_eq}
use car_flow_mvp.Base.{
  ℕ, ◌≡◌, refl, subst, Bool, true, ◌&&◌, none, some, List, [], ◌∷◌, All, if◌then◌else◌, inl, inr,
  Bool-cases, arith,
}
use car_flow_mvp.Base.Int.{pos, leb_ℤ}
use car_flow_mvp.Base.Result.{ok}
use car_flow_mvp.Booking.Domain.{instant}
use car_flow_mvp.Search.Documents.{Document}
use car_flow_mvp.Search.Query.{
  SearchParams, Filter, term_make, term_booking_mode, range_price, geo_distance, Query, match_all,
  bool_filter, SortClause, hits, mode_text, search_vehicles, search_index,
}
use car_flow_mvp.Search.Query.Sound.{Engine, bounded, Meets, search_sound}

abbrev passes : Filter ℕ → Document ℕ → Bool
passes (term_make s) d = str_eq d.make s
passes (term_booking_mode s) d = str_eq (mode_text d.booking_mode) s
passes (range_price lo hi) d =
    bounded (λ n. leb_ℤ n d.daily_price_cents) lo && bounded (λ n. leb_ℤ d.daily_price_cents n) hi
passes (geo_distance r l) d = true

abbrev pass_all : List (Filter ℕ) → Document ℕ → Bool
pass_all [] d = true
pass_all (f ∷ fs) d = passes f d && pass_all fs d

abbrev matches : Query ℕ → Document ℕ → Bool
matches match_all d = true
matches (bool_filter fs) d = pass_all fs d

abbrev matching : Query ℕ → List (Document ℕ) → List (Document ℕ)
matching q [] = []
matching q (d ∷ ds) = if matches q d then d ∷ matching q ds else matching q ds

filters_hold :
    (fs : List (Filter ℕ)) (d : Document ℕ) → pass_all fs d ≡ true → All (λ f. passes f d ≡ true) fs
filters_hold [] d h = tt
filters_hold (f ∷ fs) d h = (ground arith, filters_hold fs d (ground arith))

hits_fit : (q : Query ℕ) (ds : List (Document ℕ)) → All (λ d. matches q d ≡ true) (matching q ds)
hits_fit q [] = tt
hits_fit q (d ∷ ds) = elim (Bool-cases (matches q d)) [
  | inl fits ↦ rw (fits, All) (fits, hits_fit q ds)
  | inr other ↦ rw (other) (hits_fit q ds)
]

abbrev small_car : Document ℕ
small_car = record {
  vehicle_id = 7;
  host_id = 1;
  make = "Make";
  model = "Model";
  year = pos 2020;
  daily_price_cents = pos 5000;
  daily_mileage_limit = pos 200;
  booking_mode = instant;
  location = record { lat = 48; lon = 11 };
}

abbrev dear_car : Document ℕ
dear_car = record small_car { vehicle_id = 8; daily_price_cents = pos 9000 }

abbrev two_documents : List (Document ℕ)
two_documents = small_car ∷ dear_car ∷ []

scan_hits :
    (q : Query ℕ) (o : SortClause ℕ) (offset limit : ℕ) (ds : List (Document ℕ))
    → hits (matching q two_documents) ≡ hits ds
    → All (λ d. matches q d ≡ true) ds
scan_hits q o offset limit ds e =
    let same : matching q two_documents ≡ ds = cc in
    subst (All (λ d. matches q d ≡ true)) same (hits_fit q two_documents)

abbrev scanning : Engine ℕ
scanning = record {
  ask = λ q o offset limit. hits (matching q two_documents);
  within = λ r l l'. true;
  matches = matches;
  passes = passes;
  hits_match = scan_hits;
  filters_pass = filters_hold;
  passes-make = λ s d. refl;
  passes-mode = λ s d. refl;
  passes-price = λ lo hi d. refl;
  passes-geo = λ r l d. refl;
}

abbrev cheap : SearchParams ℕ
cheap = record {
  make = some "Make";
  booking_mode = none;
  min_price_cents = none;
  max_price_cents = some (pos 6000);
  lat = none;
  lon = none;
  radius_km = none;
  sort = "price_asc";
  limit = 20;
  offset = 0;
}

found : search_vehicles scanning.ask cheap ≡ ok (small_car ∷ [])
unfolding search_vehicles search_index
found = refl

search_sound_example : All (Meets scanning cheap) (small_car ∷ [])
search_sound_example = search_sound scanning cheap (small_car ∷ []) found
