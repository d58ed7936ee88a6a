-- ===== src/Lib.antt =====
-- A model of the backend of a blackjack game for one human player against the dealer.
--
-- The program (backend/) keeps rooms, game sessions (rounds) and hands in a store. Requests of the player
-- and the ticks of a scheduler read the store, decide, and write in a transaction that replaces the row
-- of the session only under the version that was read. The hand rules come from a card library behind an
-- adapter.
--
-- Prelude: numbers, lists, 64-bit integers, results with the errors of the backend, decimal printing.
-- Model: backend/model. A Go struct is a record, a string type with named constants a data type with
--   `other` for every other text, a method with a pointer receiver a function that returns the new value.
--   A time is the number of nanoseconds since Go's zero time. The status BLACKJACK of a player is
--   `blackjack_hand`.
-- Adapter: backend/adapter/blackjackadapter. The two card libraries are the parameter `CardLibrary` with
--   the laws `IsCardLibrary`; `IsHandRules` is the interface that the rounds are proved against.
-- Round: what the functions of backend/usecase/game_usecase.go do to a round. Deck and Deal are
--   newShuffledDeck, initialDeal and the start of a round, Turn the middle of playerTurn, Dealer those of
--   dealerTurn and playerStand with dealerresult and dealerresultTimeForfeit. Invariant is the invariant;
--   Shuffle, Start, Moves, DealerMoves, Ends, Finish, Progress and Version hold the proofs.
-- Store: backend/repository/repository_ports.go as an interface with the laws that the use cases rely on.
-- Repository: backend/repository over PostgreSQL. Rows are the tables' rows, Text, Convert and Cards the
--   conversions of game_repository_map.go, Gorm the relational mapper (GORM) as a parameter, Sessions,
--   Rooms, Hands, Logs and Users the operations of `pgStore`, and Pg puts them together to a store.
--   RoundTrip, Table, Swap, Laws, UserLaws and Errors hold the proofs.
-- Accounts: backend/jwtauth/jwt.go (Jwt) and backend/usecase/user_usecase.go (Auth); SignedUp and Refused
--   hold the proofs.
-- Limits: backend/usecase/rate_limit_usecase.go (Keys and Allow) and the token bucket of
--   backend/repository/rate_limit_repository.go (Bucket); Allowed and Capacity hold the proofs.
-- Usecase: the use cases of backend/usecase/game_usecase.go and idempotency.go. `X_prepare` reads and
--   decides, `X_commit` is the body of the transaction, and `finish` puts them together: between the two
--   the function `others` stands for all that other requests do to the database. Access has the reads,
--   Host, Seats and Connections the rooms, Start, Turn, Rematch and Vote the game, Forfeit, DealerTurn and
--   Ticks the scheduler. Requests serves the requests that write; Swap, MoveWrites, Lock, Winner, Ballot, Voters,
--   DealerStep, Overdue, Late and Replays hold proofs.
-- Web: backend/controller, backend/dto and backend/middleware. Payload is what a player is sent
--   (`buildRoomDTO`), Errors the switches over errors, Http and Users the handlers, Route the routes that
--   change the store, Ws the messages over the WebSocket, Middleware and Identity the checks before a
--   handler, Pipeline their chain (backend/router), Hub the table of WebSocket connections. Hidden, Codes
--   and Latest hold proofs.
-- Sockets: the WebSocket connections of backend/controller/room_ws_controller.go and
--   backend/realtime/room_sync.go. Site is what a server has at hand and the state it changes, Epoch the
--   epochs in Redis, Open, Receive and Close are `RoomWS` up to the hub, one turn of its loop and its
--   deferred function, Broadcast and Announce what is sent to a room, Sync the messages between servers.
--   Current, Opens, Stale, Replaced and Reaches hold the proofs.
-- Audit: backend/auditlog, backend/middleware/audit_log_middleware.go (Http) and
--   backend/controller/ws_audit.go (Ws). Logged holds the proof.
-- Startup: backend/main.go and run.go: Environment and Origins the configuration, Health the health check,
--   Workers one tick of each worker.
-- Tests: a small card library, a store in memory, and the theorems applied to them.
--
-- Parameters: GORM with its tables, bcrypt, golang-jwt, echo-jwt, Redis with its commands, float64,
-- strings.ToLower, strings.EqualFold, time.ParseDuration, strconv.ParseBool, the format of times, the JSON
-- codecs, the random source of the shuffle (`none` is its error), SHA-256 in hex, the
-- clock, new ids, and whether the time-out policy is the heuristic one. The clock is read once for each
-- request and for each session that the scheduler visits. The hooks of backend/usecase/hooks.go have
-- their production values.
--
-- Bounds: the loop of the shuffle runs over the index of the deck; decimal printing has twenty digits,
-- enough for 64 bits; the dealer's turn is run for 18 ticks, which is enough because every card is worth a
-- point and he stops at 17. Versions and indices wrap at 64 bits; a score is a natural number.
--
-- Not modelled: reading requests and writing answers, the frames of the WebSocket and the locks that order
-- its writes, the calls that the handlers make to the audit log, metrics counters, the opening of the
-- database and its migrations, the wiring and the shutdown of the server, and the browser client. Between
-- two steps of one connection the hub and the buckets are left alone; what others do to the database and
-- to Redis is a function.
-- `pgStore` implements the ports and is proved to keep the laws that the use cases rely on (`IsStore`,
-- `KeepsAccounts`), from what GORM and PostgreSQL document (`IsDatabase`, `IsUsers`): rolled back
-- transactions, the rows that a statement counts, the unique keys, and that uuid, integer and varchar columns are kept as they are. Ids are compared as
-- texts, in the canonical form of a uuid. That a timestamptz is cut to the microsecond and a jsonb brought to a
-- normal form stands in no law; the conversions of the rows are proved against each other.
pub mod Prelude
pub mod Model
pub mod Adapter
pub mod Audit
pub mod Round
pub mod Store
pub mod Repository
pub mod Accounts
pub mod Limits
pub mod Usecase
pub mod Web
pub mod Sockets
pub mod Startup
pub mod Tests
