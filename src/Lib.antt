-- ===== src/Lib.antt =====
-- The verification of the Wesko backend (module `vesko`), a Go server with two parts that hold its
-- logic: accounts, with one-time codes, sessions and profiles (auth/, cache/), and a catalogue of
-- categories and products (catalog/). HTTP handlers bind requests and call a service; a service
-- checks and normalises them and calls a repository, a store or a provider behind an interface.
--
-- What models what:
--
-- Auth/Models, Auth/Errors, Auth/Ports: auth/models.go, requests.go, tokens.go, otp.go, ratelimit.go,
-- errors.go, repository.go and refresh_store.go. A struct is a record, a sentinel error a constructor
-- and an interface a record of calls over a state `S` of the world. A pointer that may be nil is an
-- Option. A time is a number of nanoseconds since Go's zero time.
-- Auth/Mobile: NormalizeIndianMobile of auth/mobile.go, its loop as `scan`, its body as `step`.
-- Auth/Token: auth/token_manager.go.
-- Auth/Cached: CachedUserRepository of auth/cached_repository.go.
-- Auth/Service/*: the methods of Service in auth/service/service.go under their names in lower case:
-- Base (IssueTokenPair, validateResendWindow), Login, Session (Refresh, Logout), Availability
-- (ensureSignupAvailability, pendingConflict), Signup, LoginOtp, Google, Profile. A method is a
-- function from the service's fields and its arguments to a call.
-- Auth/Dao/*: the rows and the PostgresRepository of dbase/userdao/postgres.go: Rows (the models and
-- toDomainUser), Users, Sso, Repository (its methods as a UserRepository).
-- Auth/Provider: VerifyProvider of auth/provider/twilio/provider.go.
-- Auth/Handler: the decisions of auth/http/handler.go (writeServiceError, enforceRateLimit,
-- requireCSRFFromWeb, refreshTokenForClient), from what gin reads of a request. Auth/Handler/*: its
-- bodies (Bodies), cookies (Cookies), the steps that handlers share (Base), the handlers (Signup, Login,
-- Session) and RegisterRoutes (Routes), a function from a request and a state to a response and a state.
-- Memory/*: the four stores of cache/memory/stores.go. A call takes the time that it reads of the clock
-- and the store, and returns its answer and the store after it; a mutex makes it one step.
-- Redis/*: the stores of cache/redis/, over the calls of go-redis that they make (Redis/Client, with
-- what a server documents of them, `Serves`) and their keys (Redis/Keys). A call is one step, and so is a
-- pipeline.
-- Catalog/Models, Requests, Errors, Ports: the files of catalog/ with those names. Catalog/Service/*:
-- the methods of Service in catalog/service/service.go.
-- Catalog/Dao/*: catalog/productdao/postgres.go: the pagination and the mapping of errors (Dao), the
-- models and their conversions (Rows, PartRows), and the methods of PostgresRepository (Category, Product, Sku,
-- Job), which make it a Repository (Repository). Catalog/Http/*: catalog/responses.go and
-- catalog/http/handler.go: Responses, Parse (parseUintParam), Handlers, Routes.
-- Configs: configs/configs.go and the two Config structs of dbase/ and cache/redis/; Env (the readers of
-- the environment), Load, Validate, whose switches are lists of checks. Server: server/http.go. Startup:
-- what main.go makes of the configuration.
-- Common: text as code points, with the functions of Go's `strings`, `strconv` and `unicode` that are
-- used, maps as functions, integers, and calls that return a value or an error with the state after them
-- (Common/Exec), with what calls keep of a state (Common/Exec/Ensures); the errors of gorm and its soft
-- deletion (Common/Gorm); the body of an error and the result of binding a body (Common/Http).
-- Tests: a small world that puts the services on the memory stores, and runs in it.
--
-- The interfaces are where the parts meet: Session/Rotation asks of a refresh store only the
-- contract `Revokes`, and the stores of Memory/Refresh (Tests/Sessions) and of Redis/Refresh keep
-- it; Auth/Cached asks of its cache `Caches`, and Redis/UserCache keeps it; the history of the
-- catalogue asks of its repository `Respects`.
--
-- The memory limiter is the limiter of a handler, and the catalogue's routes ask of the repository
-- what its service asks. `Catalog/Dao/Repository` puts the service on the DAO.
--
-- Parameters: the clock, crypto/rand, bcrypt, the JWE library and Google's API are a `Platform`;
-- the calls of gorm are a `Db` (Catalog/Dao/Tables) and a `UserDb` (Auth/Dao/Rows), each table with
-- the queries that the DAO makes of it; go-redis is a `Client` and encoding/json a `Json`; the HTTP
-- client of the provider of codes is `post`; os.LookupEnv, url.Parse, net.SplitHostPort, the text
-- of an error and the format of a time are functions; what gin and the validator make of a body is
-- an argument. The hash of a token is a function; case mapping off ASCII is a function, and what is
-- not known of these is a hypothesis with a name (`Unseals`, `Caches`, `Commits` of a transaction,
-- `Remembers` of the tables of accounts, `Serves` of a Redis server, `Decodes` of a JSON). A value
-- that Go returns beside an error is not kept, and log lines are left out. The services' limits and
-- durations are natural numbers: the validation of the configuration refuses negative ones. Text
-- stands for valid UTF-8. No definition needs fuel: every loop follows a list. Machine integers are
-- only compared and copied, or counted by one per call, but for the offset of a page and the
-- durations of the configuration, which wrap around as Go's do.
--
-- Not modelled: the text of validation errors, migrations, the redirect to Google, tracing, logging
-- and the life of the server, which are calls of libraries.
pub mod Common
pub mod Auth
pub mod Memory
pub mod Redis
pub mod Catalog
pub mod Configs
pub mod Server
pub mod Startup
pub mod Tests
