-- ===== src/Startup/Environment.antt =====
-- backend/main.go: the environment variables, and the checks of `runApp` in backend/run.go. An environment
-- is a function, with the empty text for a variable that is not set; time.ParseDuration is a parameter.
use Prim.Native.Char.{Char, code}
use Prim.Native.String as Text
use Prim.Native.String.{String, len, ◌++◌}
use blackjack.Prelude.{ℕ, ◌*◌, str_eq, List, [], ◌∷◌, ltb, ◌==◌, if◌then◌else◌}
use blackjack.Prelude.Int.{ℤ, pos, leb_ℤ}
use blackjack.Prelude.Result.{Error, Result, ok, err}
use blackjack.Prelude.Space.{trim_space}

abbrev pub Environment : Type 0
Environment = String → String

abbrev pub comma : ℕ
comma = 44

-- A character before the first part.
abbrev pub onto : Char → List String → List String
onto c [] = Text.◌∷◌ c Text.[] ∷ []
onto c (part ∷ parts) = Text.◌∷◌ c part ∷ parts

-- strings.Split at a character: one part more than there are separators.
unfoldable pub split : ℕ → String → List String
split separator Text.[] = Text.[] ∷ []
split separator (Text.◌∷◌ c s) =
    let parts = split separator s in if code c == separator then Text.[] ∷ parts else onto c parts

-- The parts without the spaces around them, less those of spaces only.
unfoldable pub trimmed_parts : List String → List String
trimmed_parts [] = []
trimmed_parts (part ∷ parts) =
    let p = trim_space part in
    let rest = trimmed_parts parts in if str_eq p "" then rest else p ∷ rest

unfoldable pub parse_ws_allowed_origins : Environment → List String
unfolding split trimmed_parts
parse_ws_allowed_origins env =
    let s = env "WS_ALLOWED_ORIGINS" in if str_eq s "" then [] else trimmed_parts (split comma s)

abbrev pub second : ℕ
second = 1000000000

-- A duration above zero in nanoseconds, or the default.
abbrev pub or_default : ℕ → Result ℤ → ℤ
or_default default (err e) = pos default
or_default default (ok d) = if leb_ℤ d (pos 0) then pos default else d

unfoldable pub duration_of : (String → Result ℤ) → ℕ → String → ℤ
duration_of parse_duration default value =
    let raw = trim_space value in
    if str_eq raw "" then pos default else or_default default (parse_duration raw)

unfoldable pub parse_ws_connection_epoch_ttl : (String → Result ℤ) → Environment → ℤ
unfolding duration_of
parse_ws_connection_epoch_ttl parse_duration env =
    duration_of parse_duration (120 * second) (env "WS_CONNECTION_EPOCH_TTL")

unfoldable pub ws_auth_read_deadline : (String → Result ℤ) → Environment → ℤ
unfolding duration_of
ws_auth_read_deadline parse_duration env =
    duration_of parse_duration (15 * second) (env "WS_AUTH_DEADLINE")

unfoldable pub parse_redis_addr : Environment → String → String
parse_redis_addr env target =
    let addr = trim_space (env target) in
    let legacy = trim_space (env "REDIS_ADDR") in
    if str_eq addr "" then (if str_eq legacy "" then "localhost:6379" else legacy) else addr

-- What `runApp` starts the server with.
pub record Settings : Type 0 where
  pub dsn : String
  pub room_redis_addr : String
  pub rate_limit_redis_addr : String
  pub jwt_secret : String
  pub server_id : String
  pub origins : List String
  pub epoch_ttl : ℤ
  pub addr : String

-- `fmt.Errorf("database: %w", err)` keeps the error under its words; `wrap` adds them.
abbrev pub opened : (Error → Error) → Result (Unit {0}) → Result Settings → Result Settings
opened wrap (err e) rest = err (wrap e)
opened wrap (ok x) rest = rest

-- `open_db` is what db.Open answers for the address of the database, `new_id` a new uuid.
unfoldable pub settings_of :
    (String → Result (Unit {0}))
    → (Error → Error)
    → (String → Result ℤ)
    → String
    → Environment
    → Result Settings
settings_of open_db wrap parse_duration new_id env =
    let dsn = env "DATABASE_URL" in
    let secret = trim_space (env "JWT_SECRET") in
    let id = trim_space (env "SERVER_ID") in
    if str_eq dsn ""
    then err (Error.other "DATABASE_URL is required (set in .env or export in shell)")
    else opened wrap (open_db dsn) (
        if ltb (len secret) 16
        then err (Error.other "JWT_SECRET is required and must be at least 16 bytes")
        else ok (record {
          dsn = dsn;
          room_redis_addr = parse_redis_addr env "REDIS_ROOM_ADDR";
          rate_limit_redis_addr = parse_redis_addr env "REDIS_RATE_LIMIT_ADDR";
          jwt_secret = secret;
          server_id = if str_eq id "" then new_id else id;
          origins = parse_ws_allowed_origins env;
          epoch_ttl = parse_ws_connection_epoch_ttl parse_duration env;
          addr = ":" ++ (if str_eq (env "PORT") "" then "8080" else env "PORT");
        }))
