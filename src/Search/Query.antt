-- ===== src/Search/Query.antt =====
-- services/search/service.py, repository.py and routes.py: a search, the query that is sent to
-- Elasticsearch, and the cache of answers in Redis. `C` is the type of coordinates and of distances.
pub mod Sound
use text.Mathlib.Text.{◌==◌ as str_eq}
use car_flow_mvp.Base.{
  ℕ, ◌≡◌, Bool, true, false, ◌&&◌, ◌||◌, not, Option, none, some, String, List, [], ◌∷◌, ◌++◌, All,
  map, is_some, ltb, leb, if◌then◌else◌,
}
use car_flow_mvp.Base.Int.{ℤ, pos, leb_ℤ}
use car_flow_mvp.Base.Result.{Result, ok, err}
use car_flow_mvp.Base.Exec.{Exec, pure, lift, raise_if, catching, gets, modify, ◌>>=◌, ◌>>◌}
use car_flow_mvp.Shared.Http.{Failure, http_exception, server_error, validation_error}
use car_flow_mvp.Booking.Domain.{BookingMode, instant, request}
use car_flow_mvp.Search.Documents.{Location, Document, VehicleSearchResult, document_to_result}

pub record SearchParams (C : Type 0) : Type 0 where
  pub make : Option String
  pub booking_mode : Option String
  pub min_price_cents : Option ℤ
  pub max_price_cents : Option ℤ
  pub lat : Option C
  pub lon : Option C
  pub radius_km : Option C
  pub sort : String
  pub limit : ℕ
  pub offset : ℕ

pub data Filter (C : Type 0) : Type 0 where
  term_make term_booking_mode : String → Filter C
  range_price : (gte lte : Option ℤ) → Filter C
  geo_distance : C → Location C → Filter C

pub data Query (C : Type 0) : Type 0 where
  match_all : Query C
  bool_filter : List (Filter C) → Query C

pub data SortClause (C : Type 0) : Type 0 where
  by_distance : (lat lon : Option C) → SortClause C
  price_desc price_asc : SortClause C

-- The answer of Elasticsearch to a search.
pub data Answer (C : Type 0) : Type 0 where
  hits : List (Document C) → Answer C
  index_not_found es_unavailable : Answer C

pub data QueryError : Type 0 where
  invalid_search_query : String → QueryError
  search_unavailable : QueryError

abbrev pub mode_text : BookingMode → String
mode_text instant = "instant"
mode_text request = "request"

module _ {C : Type 0} where
  -- `if value is not None: filters.append(...)`
  abbrev pub given_filter : {A : Type 0} → (A → Filter C) → Option A → List (Filter C)
  given_filter f none = []
  given_filter f (some a) = f a ∷ []

  abbrev pub price_filter : (min_price max_price : Option ℤ) → List (Filter C)
  price_filter none none = []
  price_filter none (some most) = range_price none (some most) ∷ []
  price_filter (some least) max_price = range_price (some least) max_price ∷ []

  abbrev pub geo_filter : (lat lon radius_km : Option C) → List (Filter C)
  geo_filter (some lat) (some lon) (some radius_km) =
      geo_distance radius_km (record { lat = lat; lon = lon }) ∷ []
  geo_filter _ _ _ = []

  abbrev pub filters_of : SearchParams C → List (Filter C)
  filters_of params =
      given_filter term_make params.make
      ++ (given_filter term_booking_mode params.booking_mode
          ++ (price_filter params.min_price_cents params.max_price_cents
              ++ geo_filter params.lat params.lon params.radius_km))

  abbrev pub query_of : List (Filter C) → Query C
  query_of [] = match_all
  query_of (f ∷ filters) = bool_filter (f ∷ filters)

  abbrev pub sort_of : SearchParams C → SortClause C
  sort_of params =
      if str_eq params.sort "distance"
      then by_distance params.lat params.lon
      else (if str_eq params.sort "price_desc" then price_desc else price_asc)

  abbrev pub no_point : SearchParams C → Bool
  no_point params = not (is_some params.lat) || not (is_some params.lon)

  -- What Elasticsearch answers to a query, its order, the offset and the limit.
  module _ (ask : Query C → SortClause C → (offset limit : ℕ) → Answer C) where
    -- `except NotFoundError: return []`
    abbrev pub found_hits : Answer C → Result QueryError (List (Document C))
    found_hits (hits documents) = ok documents
    found_hits index_not_found = ok []
    found_hits es_unavailable = err search_unavailable

    -- `SearchRepository.search`
    unfoldable pub search_index : SearchParams C → Result QueryError (List (Document C))
    search_index params =
        found_hits (ask (query_of (filters_of params)) (sort_of params) params.offset params.limit)

    unfoldable pub search_vehicles : SearchParams C → Result QueryError (List (Document C))
    search_vehicles params =
        if str_eq params.sort "distance" && no_point params
        then err (invalid_search_query "sort=distance requires lat and lon")
        else (if is_some params.radius_km && no_point params
            then err (invalid_search_query "radius_km requires lat and lon")
            else search_index params)

-- The cache: the answers by key, those that have not expired.
pub record Cache (C : Type 0) : Type 0 where
  pub entries : String → Option (List (VehicleSearchResult C))

-- `except InvalidSearchQueryError`
abbrev pub query_failure : QueryError → Failure
query_failure (invalid_search_query text) = http_exception 400 text
query_failure search_unavailable = server_error

-- `Query(default=None, ge=0)` and the like; the ranges of coordinates and radius are parameters.
abbrev pub at_least_zero : Option ℤ → Bool
at_least_zero none = true
at_least_zero (some n) = leb_ℤ (pos 0) n

abbrev pub in_range : {C : Type 0} → (C → Bool) → Option C → Bool
in_range test none = true
in_range test (some c) = test c

module _ {C : Type 0} (is_latitude is_longitude is_positive : C → Bool) where
  abbrev pub params_valid : SearchParams C → Bool
  params_valid params =
      at_least_zero params.min_price_cents
      && at_least_zero params.max_price_cents
      && in_range is_latitude params.lat
      && in_range is_longitude params.lon
      && in_range is_positive params.radius_km
      && ltb 0 params.limit
      && leb params.limit 100

  -- The endpoint, with the key that `_cache_key` makes of the parameters.
  module _ (cache_key : SearchParams C → String)
      (ask : Query C → SortClause C → (offset limit : ℕ) → Answer C) where
    abbrev pub set_entry : String → List (VehicleSearchResult C) → Cache C → Cache C
    set_entry key response cache = record {
      entries = λ k. if str_eq key k then some response else cache.entries k;
    }

    abbrev pub search_afresh :
        SearchParams C → Exec (Cache C) Failure (List (VehicleSearchResult C))
    search_afresh params = do
      documents ← catching query_failure (lift (search_vehicles ask params))
      modify (set_entry (cache_key params) (map document_to_result documents))
      pure (map document_to_result documents)

    abbrev pub answered :
        SearchParams C
        → Option (List (VehicleSearchResult C))
        → Exec (Cache C) Failure (List (VehicleSearchResult C))
    answered params (some response) = pure response
    answered params none = search_afresh params

    unfoldable pub search : SearchParams C → Exec (Cache C) Failure (List (VehicleSearchResult C))
    search params = do
      raise_if (not (params_valid params)) validation_error
      cached ← gets (λ cache. cache.entries (cache_key params))
      answered params cached
