-- ===== src/Config.antt =====
-- src/config.ts: the rules for the environment variables of the services. The patterns of the
-- formats, zod's check of an email and `trim` are parameters; the environment is a function.
pub mod Startup
use Prim.Native.String.{◌++◌ as text_append}
use edgar_radar.Prelude.{
  String, Bool, true, false, Option, none, some, List, [], ◌∷◌, ◌++◌, length, ℕ, map, str_eq,
  if◌then◌else◌,
}

pub data EnvVar : Type 0 where
  database_url redis_url edgar_contact_email jwt_secret : EnvVar
  read_database_url cache_redis_url sec_requests_per_second : EnvVar

pub data ServiceName : Type 0 where
  api parser_worker scoring_worker notification_worker : ServiceName

-- The tests that the formats make of a value, and JavaScript's `trim` and decimal numerals.
pub record Texts : Type 0 where
  pub trim : String → String
  -- `/^postgres(ql)?:\/\/\S+$/`, `/^rediss?:\/\/\S+$/` and `/^\d+(\.\d+)?$/`
  pub is_postgres_url : String → Bool
  pub is_redis_url : String → Bool
  pub is_numeral : String → Bool
  -- `Number(v) > 0 && Number(v) <= 8`
  pub is_share : String → Bool
  pub is_email : String → Bool
  pub numeral : ℕ → String

-- How a variable is written.
abbrev pub env_name : EnvVar → String
env_name database_url = "DATABASE_URL"
env_name redis_url = "REDIS_URL"
env_name edgar_contact_email = "EDGAR_CONTACT_EMAIL"
env_name jwt_secret = "JWT_SECRET"
env_name read_database_url = "READ_DATABASE_URL"
env_name cache_redis_url = "CACHE_REDIS_URL"
env_name sec_requests_per_second = "SEC_REQUESTS_PER_SECOND"

abbrev pub service_name : ServiceName → String
service_name api = "api"
service_name parser_worker = "parser-worker"
service_name scoring_worker = "scoring-worker"
service_name notification_worker = "notification-worker"

-- `REQUIRED_ENV` and `OPTIONAL_ENV`
abbrev pub required_env : ServiceName → List EnvVar
required_env api = database_url ∷ redis_url ∷ edgar_contact_email ∷ jwt_secret ∷ []
required_env parser_worker = database_url ∷ redis_url ∷ edgar_contact_email ∷ []
required_env scoring_worker = database_url ∷ redis_url ∷ edgar_contact_email ∷ []
required_env notification_worker = database_url ∷ redis_url ∷ edgar_contact_email ∷ []

abbrev pub optional_env_of : ServiceName → List EnvVar
optional_env_of api = read_database_url ∷ cache_redis_url ∷ sec_requests_per_second ∷ []
optional_env_of parser_worker = cache_redis_url ∷ sec_requests_per_second ∷ []
optional_env_of scoring_worker = []
optional_env_of notification_worker = []

-- `NOT_SET` and the messages of the formats.
abbrev pub not_set : String
not_set = "is not set"

abbrev pub postgres_message : String
postgres_message = "must be a postgres:// or postgresql:// connection URL"

abbrev pub redis_message : String
redis_message = "must be a redis:// or rediss:// URL"

abbrev pub numeral_message : String
numeral_message = "must be a number of requests per second, e.g. 2"

abbrev pub share_message : String
share_message =
    "must be greater than 0 and at most 8 - SEC allows 10 per second across all processes"

abbrev pub email_message : String
email_message = "must be a valid email address - SEC requires a real contact email on every request"

-- `EnvCheck`
pub data EnvCheck : Type 0 where
  valid : (value : String) → EnvCheck
  invalid : (problem : String) → EnvCheck

pub record EnvProblem : Type 0 where
  pub name : EnvVar
  pub problem : String

-- What a read of the environment comes to: a value, or an error with its message.
pub data Read (A : Type 0) : Type 0 where
  returned : A → Read A
  thrown : (message : String) → Read A

module _ (texts : Texts) where
  -- `FORMATS`: the message of the first rule that a value breaks.
  unfoldable pub broken_rule : EnvVar → String → Option String
  broken_rule database_url v = if texts.is_postgres_url v then none else some postgres_message
  broken_rule read_database_url v = if texts.is_postgres_url v then none else some postgres_message
  broken_rule redis_url v = if texts.is_redis_url v then none else some redis_message
  broken_rule cache_redis_url v = if texts.is_redis_url v then none else some redis_message
  broken_rule sec_requests_per_second v =
      if texts.is_numeral v
      then (if texts.is_share v then none else some share_message)
      else some numeral_message
  broken_rule edgar_contact_email v = if texts.is_email v then none else some email_message
  broken_rule jwt_secret v = none

  unfoldable pub check_rule : String → Option String → EnvCheck
  check_rule value none = valid value
  check_rule value (some message) = invalid message

  unfoldable pub check_value : EnvVar → Option String → EnvCheck
  unfolding broken_rule check_rule
  check_value name none = invalid not_set
  check_value name (some value) =
      if str_eq (texts.trim value) ""
      then invalid not_set
      else check_rule value (broken_rule name value)

  -- `checkEnvVar`
  unfoldable pub check_env_var : EnvVar → (EnvVar → Option String) → EnvCheck
  unfolding check_value
  check_env_var name env = check_value name (env name)

  unfoldable pub problem_of_required : EnvVar → EnvCheck → List EnvProblem
  problem_of_required name (valid value) = []
  problem_of_required name (invalid problem) = record { name = name; problem = problem } ∷ []

  unfoldable pub problem_of_optional : EnvVar → EnvCheck → List EnvProblem
  problem_of_optional name (valid value) = []
  problem_of_optional name (invalid problem) =
      if str_eq problem not_set then [] else record { name = name; problem = problem } ∷ []

  -- The two loops of `findEnvProblems`.
  unfoldable pub required_problems : List EnvVar → (EnvVar → Option String) → List EnvProblem
  unfolding check_env_var problem_of_required
  required_problems [] env = []
  required_problems (name ∷ names) env =
      problem_of_required name (check_env_var name env) ++ required_problems names env

  unfoldable pub optional_problems : List EnvVar → (EnvVar → Option String) → List EnvProblem
  unfolding check_env_var problem_of_optional
  optional_problems [] env = []
  optional_problems (name ∷ names) env =
      problem_of_optional name (check_env_var name env) ++ optional_problems names env

  unfoldable pub find_env_problems : ServiceName → (EnvVar → Option String) → List EnvProblem
  unfolding required_problems optional_problems
  find_env_problems service env =
      required_problems (required_env service) env
      ++ optional_problems (optional_env_of service) env

  -- The lines of the problems, each with the line break before it.
  problem_lines : List EnvProblem → String
  problem_lines [] = ""
  problem_lines (p ∷ ps) =
      text_append "\n  - "
        (text_append (env_name p.name) (text_append " " (text_append p.problem (problem_lines ps))))

  -- `formatEnvProblems`
  unfoldable pub format_env_problems : ServiceName → List EnvProblem → String
  unfolding problem_lines
  format_env_problems service problems = text_append "[" (
      text_append (service_name service) (
        text_append "] Refusing to start - " (
          text_append (texts.numeral (length problems)) (
            text_append " environment variable(s) missing or invalid:" (
              text_append (problem_lines problems)
                "\nSet them in this container's environment. Under docker compose they are passed in by docker-compose.yml from .env; see .env.example for every variable.")))))

  -- `exitIfEnvInvalid`: what is written before the process exits with 1, or `none` where it goes on.
  unfoldable pub exit_if_env_invalid : ServiceName → (EnvVar → Option String) → Option String
  unfolding find_env_problems format_env_problems
  exit_if_env_invalid service env = elim (find_env_problems service env) [
    | [] ↦ none
    | p ∷ ps ↦ some (text_append (format_env_problems service (p ∷ ps)) "\n")
  ]

  unfoldable pub required_value : EnvVar → EnvCheck → Read String
  required_value name (valid value) = returned value
  required_value name (invalid problem) = thrown (
      text_append (env_name name)
        (text_append " " (text_append problem ". Set it in the environment (see .env.example).")))

  -- `requireEnv`
  unfoldable pub require_env : EnvVar → (EnvVar → Option String) → Read String
  unfolding check_env_var required_value
  require_env name env = required_value name (check_env_var name env)

  unfoldable pub optional_value : EnvVar → EnvCheck → Read (Option String)
  optional_value name (valid value) = returned (some value)
  optional_value name (invalid problem) =
      if str_eq problem not_set
      then returned none
      else thrown (
          text_append (env_name name) (
            text_append " " (
              text_append problem ". Fix it, or leave it unset to disable it (see .env.example).")))

  -- `optionalEnv`
  unfoldable pub optional_env : EnvVar → (EnvVar → Option String) → Read (Option String)
  unfolding check_env_var optional_value
  optional_env name env = optional_value name (check_env_var name env)
