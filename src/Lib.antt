-- ===== src/Lib.antt =====
-- CarFlow is a car-sharing marketplace made of small services: a renter requests a booking, the booking
-- service asks the payment service to hold the money, the host hands the car over and takes it back,
-- and the payment service captures the hold and an overage. The listing service keeps the vehicles, which
-- an administrator approves, and the search service an index of the approved ones; the telemetry service
-- takes the positions of cars, which an administrator's kill switch stops; accounts and their tokens are
-- the auth service's. The services share no database. A service
-- writes its messages to an outbox table in the transaction that changes its data, change data capture
-- ships them to Kafka, and the consumer of the other service claims each event in an inbox table in the
-- transaction that handles it. Endpoints that change data take an idempotency key.
--
-- Files, and the code that they model:
--   Base/*: results, sessions (a coroutine on a database session is a function from the state to an
--     outcome and a state), tables and integers.
--   Shared/Outbox, Shared/Consumer: shared/outbox.py, shared/inbox.py, shared/kafka_consumer.py.
--   Shared/Idempotency, Shared/Auth, Shared/Http: shared/idempotency.py, shared/jwt_auth.py.
--   Booking/Domain: services/booking/domain.py; the Lifecycle and Overage files under it are about it.
--   Booking/Model, Booking/Repository: services/booking/models.py, services/booking/repository.py and
--     the constraints of services/booking/migrations/versions/0001_initial.py.
--   Booking/ListingClient, Booking/Service: services/booking/listing_client.py and
--     services/booking/service.py, one function for each operation, under the operation's name.
--   Booking/Routes, Booking/Consumers: services/booking/routes.py and services/booking/consumers.py.
--   Booking/Settle, Booking/Create: what an operation that returns does to the database.
--   Booking/Invariant, Booking/Machine: the invariant of the tables, and the databases that operations
--     lead to from the empty one.
--   Payment/Model, Payment/Service: services/payment/models.py, repository.py, service.py, consumers.py.
--   Payment/Routes, Notification: services/payment/routes.py, services/notification.
--   Payment/Consumers: the consumer of services/payment/consumers.py at work.
--   Saga/*: the booking and the payment service together, each consumer with the other's messages.
--   Listing: services/listing/models.py, repository.py and service.py.
--   Listing/Schemas, Listing/Routes: services/listing/schemas.py and routes.py.
--   Listing/Machine: what a request changes.
--   Search/Documents, Search/Service, Search/Query, Search/Backfill: services/search; Search/Stores has what it
--     relies on of Elasticsearch and Redis, Search/Machine the listing service and the consumer together.
--   Auth, Auth/Routes, Shared/Tokens: services/auth, and the tokens of shared/jwt_auth.py.
--   Admin, Admin/Routes, Shared/KillSwitch: services/admin and shared/kill_switch.py.
--   Telemetry: services/telemetry.
--   Shared/Endpoint, Shared/Paging: what the endpoints of the services have in common.
--   Payment/Ledger, Payment/Machine: the ledger, and the databases that commands lead to.
--   Tests/*: concrete runs.
--
-- How the model reads the code. A table is a list in the order of insertion; a unique or an exclusion
-- constraint is the test that refuses an INSERT. A transaction that raises leaves the state as it was.
-- The values of `uuid4`, the answers of the listing service and of Stripe, and the hash of a request's
-- body are arguments. Ids are numbers; a date is the number of its day; money and odometer readings are
-- unbounded integers, where PostgreSQL would refuse what exceeds its column; the limit and the offset of a
-- list are any integers, and which of them the database driver can send is an argument of the list of
-- bookings, while the lists of vehicles and of admin actions are for those that it can send; a text that a CHECK
-- constraint restricts is an enumeration; an event's type and its data are one value. The
-- consumer runs over the list of the records from the committed offset on; the backfill runs on fuel,
-- of which one more than the number of approved vehicles is enough.
--
-- Not modelled: timestamps of rows, tracing, metrics, HTTP parsing, Kafka, Redis, Elasticsearch, Stripe,
-- Argon2 and PyJWT themselves, the expiry of positions and of cached answers, and the load tests and the
-- simulator, which are clients.
pub mod Base
pub mod Shared
pub mod Booking
pub mod Payment
pub mod Notification
pub mod Listing
pub mod Search
pub mod Auth
pub mod Admin
pub mod Telemetry
pub mod Saga
pub mod Tests
