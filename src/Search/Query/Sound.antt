-- ===== src/Search/Query/Sound.antt =====
-- Every vehicle of an answer meets what was asked for.
use text.Mathlib.Text.{◌==◌ as str_eq}
use car_flow_mvp.Base.{
  ℕ, ◌≡◌, refl, sym, subst, ◌∙◌, Bool, true, ◌&&◌, is_some, All-map, Option, none, some, String,
  List, [], ◌∷◌, ◌++◌, All, ⊤, inl, inr, Bool-cases, arith,
}
use car_flow_mvp.Base.Int.{ℤ, leb_ℤ}
use car_flow_mvp.Base.Result.{ok, err}
use car_flow_mvp.Search.Documents.{Location, Document}
use car_flow_mvp.Search.Query.{
  SearchParams, Filter, term_make, term_booking_mode, range_price, geo_distance, Query, bool_filter,
  SortClause, Answer, hits, index_not_found, es_unavailable, mode_text, given_filter, price_filter,
  geo_filter, filters_of, query_of, sort_of, found_hits, invalid_search_query, no_point,
  search_index, search_vehicles,
}

-- A bound that may be missing.
abbrev pub bounded : (ℤ → Bool) → Option ℤ → Bool
bounded test none = true
bounded test (some n) = test n

-- What Elasticsearch documents of the queries that the service sends: which documents match one, and
-- that an answer has only those. `within` is its test of the distance.
pub record Engine (C : Type 0) : Type 0 where
  pub ask : Query C → SortClause C → (offset limit : ℕ) → Answer C
  pub within : C → Location C → Location C → Bool
  pub matches : Query C → Document C → Bool
  pub passes : Filter C → Document C → Bool
  pub hits_match :
      (q : Query C) (o : SortClause C) (offset limit : ℕ) (ds : List (Document C))
      → ask q o offset limit ≡ hits ds
      → All (λ d. matches q d ≡ true) ds
  pub filters_pass :
      (fs : List (Filter C)) (d : Document C)
      → matches (bool_filter fs) d ≡ true
      → All (λ f. passes f d ≡ true) fs
  pub passes-make : (s : String) (d : Document C) → passes (term_make s) d ≡ str_eq d.make s
  pub passes-mode :
      (s : String) (d : Document C)
      → passes (term_booking_mode s) d ≡ str_eq (mode_text d.booking_mode) s
  pub passes-price :
      (lo hi : Option ℤ) (d : Document C)
      → passes (range_price lo hi) d ≡ (
          bounded (λ n. leb_ℤ n d.daily_price_cents) lo
          && bounded (λ n. leb_ℤ d.daily_price_cents n) hi)
  pub passes-geo :
      (r : C) (l : Location C) (d : Document C)
      → passes (geo_distance r l) d ≡ within r l d.location

abbrev pub Asked : {A : Type 0} → (A → Bool) → Option A → Type 0
Asked test none = ⊤
Asked test (some a) = test a ≡ true

module _ {C : Type 0} (engine : Engine C) where
  abbrev pub Near : (lat lon radius_km : Option C) → Document C → Type 0
  Near (some lat) (some lon) (some radius_km) d =
      engine.within radius_km (record { lat = lat; lon = lon }) d.location ≡ true
  Near _ _ _ d = ⊤

  -- Each criterion that is given holds of the vehicle.
  pub record Meets (params : SearchParams C) (d : Document C) : Type 0 where
    pub has_make : Asked (λ s. str_eq d.make s) params.make
    pub has_mode : Asked (λ s. str_eq (mode_text d.booking_mode) s) params.booking_mode
    pub dear_enough : Asked (λ n. leb_ℤ n d.daily_price_cents) params.min_price_cents
    pub cheap_enough : Asked (λ n. leb_ℤ d.daily_price_cents n) params.max_price_cents
    pub is_near : Near params.lat params.lon params.radius_km d

  module _ (d : Document C) where
    abbrev Pass : List (Filter C) → Type 0
    Pass fs = All (λ f. engine.passes f d ≡ true) fs

    Pass-split : (fs gs : List (Filter C)) → Pass (fs ++ gs) → Pass fs × Pass gs
    Pass-split [] gs h = (tt, h)
    Pass-split (f ∷ fs) gs h = let (first, rest) = Pass-split fs gs h.1 in ((h.0, first), rest)

    given_passes :
        {A : Type 0} (f : A → Filter C) (test : A → Bool) (o : Option A)
        → ((a : A) → engine.passes (f a) d ≡ test a)
        → Pass (given_filter f o)
        → Asked test o
    given_passes f test none same h = tt
    given_passes f test (some a) same h = sym (same a) ∙ h.0

    price_passes :
        (lo hi : Option ℤ)
        → Pass (price_filter lo hi)
        → Asked (λ n. leb_ℤ n d.daily_price_cents) lo × Asked (λ n. leb_ℤ d.daily_price_cents n) hi
    price_passes none none h = (tt, tt)
    price_passes none (some n) h = (tt, sym (engine.passes-price none (some n) d) ∙ h.0)
    price_passes (some m) none h =
        let both = sym (engine.passes-price (some m) none d) ∙ h.0 in (ground arith, tt)
    price_passes (some m) (some n) h =
        let both = sym (engine.passes-price (some m) (some n) d) ∙ h.0 in
        (ground arith, ground arith)

    geo_passes :
        (lat lon radius : Option C) → Pass (geo_filter lat lon radius) → Near lat lon radius d
    geo_passes (some lat) (some lon) (some radius) h =
        sym (engine.passes-geo radius (record { lat = lat; lon = lon }) d) ∙ h.0
    geo_passes none lon radius h = tt
    geo_passes (some lat) none radius h = tt
    geo_passes (some lat) (some lon) none h = tt

    query_of-Pass : (fs : List (Filter C)) → engine.matches (query_of fs) d ≡ true → Pass fs
    query_of-Pass [] h = tt
    query_of-Pass (f ∷ fs) h = engine.filters_pass (f ∷ fs) d h

    match-Meets :
        (params : SearchParams C)
        → engine.matches (query_of (filters_of params)) d ≡ true
        → Meets params d
    match-Meets params h =
        let (make, rest) =
          Pass-split (given_filter term_make params.make) _ (query_of-Pass (filters_of params) h) in
        let (mode, rest') =
          Pass-split (given_filter term_booking_mode params.booking_mode) _ rest in
        let (price, geo) =
          Pass-split (price_filter params.min_price_cents params.max_price_cents) _ rest' in
        let (dear, cheap) = price_passes params.min_price_cents params.max_price_cents price in
        record {
          has_make =
              given_passes term_make (λ s. str_eq d.make s) params.make
                (λ s. engine.passes-make s d) make;
          has_mode =
              given_passes term_booking_mode (λ s. str_eq (mode_text d.booking_mode) s)
                params.booking_mode (λ s. engine.passes-mode s d) mode;
          dear_enough = dear;
          cheap_enough = cheap;
          is_near = geo_passes params.lat params.lon params.radius_km geo;
        }

  answered_by :
      (params : SearchParams C) (ds : List (Document C)) (answer : Answer C)
      → engine.ask (query_of (filters_of params)) (sort_of params) params.offset params.limit
        ≡ answer
      → found_hits engine.ask answer ≡ ok ds
      → All (Meets params) ds
  answered_by params ds (hits found) e h =
      let same : found ≡ ds = cc in
      subst (All (Meets params)) same (
        All-map (λ d. engine.matches (query_of (filters_of params)) d ≡ true) (Meets params) found
          (λ d m. match-Meets d params m)
          (engine.hits_match (query_of (filters_of params)) (sort_of params) params.offset
            params.limit found e))
  answered_by params ds index_not_found e h =
      let same : [] ≡ ds = cc in subst (All (Meets params)) same tt
  answered_by params ds es_unavailable e h = cc

  -- Every vehicle of an answer meets each criterion that the search gives: make, booking mode, the bounds
  -- of the price, and the distance, if a point and a radius are given; as far as Elasticsearch answers a
  -- query with documents that match it.
  pub search_sound :
      (params : SearchParams C) (ds : List (Document C))
      → search_vehicles engine.ask params ≡ ok ds
      → All (Meets params) ds
  unfolding search_vehicles search_index
  search_sound params ds h = elim (Bool-cases (str_eq params.sort "distance" && no_point params)) [
    | inl pointless ↦
        let step : search_vehicles engine.ask params
            ≡ err (invalid_search_query "sort=distance requires lat and lon") =
          rw (pointless) refl in
        cc
    | inr sorted ↦ elim (Bool-cases (is_some params.radius_km && no_point params)) [
      | inl pointless ↦
          let step : search_vehicles engine.ask params
              ≡ err (invalid_search_query "radius_km requires lat and lon") =
            rw (sorted, pointless) refl in
          cc
      | inr placed ↦
          let step : search_vehicles engine.ask params ≡ search_index engine.ask params =
            rw (sorted, placed) refl in
          answered_by params ds _ refl (sym step ∙ h)
    ]
  ]
