-- ===== src/Config/Startup.antt =====
-- What the check of src/config.ts at the start of a service says of its later reads, and what it can
-- print.
use edgar_radar.Prelude.{
  String, Bool, true, false, Option, none, some, List, [], ◌∷◌, ◌++◌, ◌≡◌, ◌↔◌, refl, inl, inr, All,
  All-append, Any-append_left, Any-append_right, Among, if-elim, Bool-cases, Option-cases, str_eq,
  if◌then◌else◌,
}
use edgar_radar.Config.{
  EnvVar, database_url, redis_url, edgar_contact_email, jwt_secret, read_database_url,
  cache_redis_url, sec_requests_per_second, ServiceName, Texts, required_env, optional_env_of,
  not_set, postgres_message, redis_message, numeral_message, share_message, email_message, EnvCheck,
  valid, invalid, EnvProblem, returned, broken_rule, check_rule, check_value, check_env_var,
  problem_of_required, problem_of_optional, required_problems, optional_problems, find_env_problems,
  required_value, require_env, optional_value, optional_env,
}

module _ {A : Type 0} where
  append-nil : (xs ys : List A) → xs ++ ys ≡ [] → (xs ≡ []) × (ys ≡ [])
  append-nil [] ys e = (refl, e)
  append-nil (x ∷ xs) ys e = absurd (cc)

-- What can be printed of a value.
abbrev pub messages : List String
messages =
    not_set ∷ postgres_message ∷ redis_message ∷ numeral_message ∷ share_message ∷ email_message
    ∷ []

module _ (texts : Texts) (env : EnvVar → Option String) where
  abbrev pub IsReadable : EnvVar → Type 0
  IsReadable name = (v : String) × (require_env texts name env ≡ returned v)

  abbrev pub IsOptional : EnvVar → Type 0
  IsOptional name = (v : Option String) × (optional_env texts name env ≡ returned v)

  required_iff :
      (name : EnvVar) (c : EnvCheck)
      → (problem_of_required texts name c ≡ [])
        ↔ ((v : String) × (required_value texts name c ≡ returned v))
  unfolding problem_of_required required_value
  required_iff name (valid value) = ((λ e. (value, refl)), (λ h. refl))
  required_iff name (invalid problem) = ((λ e. absurd (cc)), (λ (v, e). absurd (cc)))

  optional_iff :
      (name : EnvVar) (c : EnvCheck)
      → (problem_of_optional texts name c ≡ [])
        ↔ ((v : Option String) × (optional_value texts name c ≡ returned v))
  unfolding problem_of_optional optional_value
  optional_iff name (valid value) = ((λ e. (some value, refl)), (λ h. refl))
  optional_iff name (invalid problem) = elim (Bool-cases (str_eq problem not_set)) [
    | inl e ↦ rw e ((λ f. (none, refl)), (λ h. refl))
    | inr e ↦ rw e ((λ f. absurd (cc)), (λ (v, f). absurd (cc)))
  ]

  required_problems_iff :
      (names : List EnvVar) → (required_problems texts names env ≡ []) ↔ All IsReadable names
  unfolding required_problems require_env
  required_problems_iff [] = ((λ e. tt), (λ h. refl))
  required_problems_iff (name ∷ names) =
      let one = required_iff name (check_env_var texts name env) in
      let rest = required_problems_iff names in
      (
        (λ e. let (a, b) = append-nil _ _ e in (one.0 a, rest.0 b)),
        (λ (a, b). rw (one.1 a, rest.1 b) refl),
      )

  optional_problems_iff :
      (names : List EnvVar) → (optional_problems texts names env ≡ []) ↔ All IsOptional names
  unfolding optional_problems optional_env
  optional_problems_iff [] = ((λ e. tt), (λ h. refl))
  optional_problems_iff (name ∷ names) =
      let one = optional_iff name (check_env_var texts name env) in
      let rest = optional_problems_iff names in
      (
        (λ e. let (a, b) = append-nil _ _ e in (one.0 a, rest.0 b)),
        (λ (a, b). rw (one.1 a, rest.1 b) refl),
      )

-- A variable of the list, with a text that does not depend on its value.
abbrev pub IsFixed : List EnvVar → EnvProblem → Type 0
IsFixed names p = Among p.name names × Among p.problem messages

message_of :
    (b : Bool) (m message : String) → (if b then none else some m) ≡ some message → m ≡ message
message_of true m message e = absurd (cc)
message_of false m message e = cc

module _ (texts : Texts) where
  broken_rule-Among :
      (name : EnvVar) (v message : String)
      → broken_rule texts name v ≡ some message
      → Among message messages
  unfolding broken_rule
  broken_rule-Among database_url v m e = inr (inl (message_of (texts.is_postgres_url v) _ m e))
  broken_rule-Among read_database_url v m e = inr (inl (message_of (texts.is_postgres_url v) _ m e))
  broken_rule-Among redis_url v m e = inr (inr (inl (message_of (texts.is_redis_url v) _ m e)))
  broken_rule-Among cache_redis_url v m e =
      inr (inr (inl (message_of (texts.is_redis_url v) _ m e)))
  broken_rule-Among edgar_contact_email v m e =
      inr (inr (inr (inr (inr (inl (message_of (texts.is_email v) _ m e))))))
  broken_rule-Among jwt_secret v m e = absurd (cc)
  broken_rule-Among sec_requests_per_second v m e = elim (Bool-cases (texts.is_numeral v)) [
    | inl n ↦ inr (inr (inr (inr (inl (message_of (texts.is_share v) _ m (rw n at e))))))
    | inr n ↦ inr (inr (inr (inl (message_of false _ m (rw n at e)))))
  ]

  check_value-Among :
      (name : EnvVar) (value : Option String) (problem : String)
      → check_value texts name value ≡ invalid problem
      → Among problem messages
  unfolding check_value check_rule
  check_value-Among name none problem e = inl (cc)
  check_value-Among name (some value) problem e = elim (Bool-cases (str_eq (texts.trim value) "")) [
    | inl blank ↦ inl (let f = rw blank at e in cc)
    | inr full ↦ elim (Option-cases (broken_rule texts name value)) [
      | inl fine ↦ absurd (let f = rw (full, fine) at e in cc)
      | inr (message, broken) ↦
          broken_rule-Among name value problem (let f = rw (full, broken) at e in cc)
    ]
  ]

  required-IsFixed :
      (names : List EnvVar) (name : EnvVar) (c : EnvCheck)
      → Among name names
      → ((problem : String) → c ≡ invalid problem → Among problem messages)
      → All (IsFixed names) (problem_of_required texts name c)
  unfolding problem_of_required
  required-IsFixed names name (valid value) m h = tt
  required-IsFixed names name (invalid problem) m h = ((m, h problem refl), tt)

  optional-IsFixed :
      (names : List EnvVar) (name : EnvVar) (c : EnvCheck)
      → Among name names
      → ((problem : String) → c ≡ invalid problem → Among problem messages)
      → All (IsFixed names) (problem_of_optional texts name c)
  unfolding problem_of_optional
  optional-IsFixed names name (valid value) m h = tt
  optional-IsFixed names name (invalid problem) m h =
      if-elim (All (IsFixed names)) (str_eq problem not_set) _ _ (λ _. tt)
        (λ _. ((m, h problem refl), tt))

  module _ (env : EnvVar → Option String) (names : List EnvVar) where
    required_problems-IsFixed :
        (some_names : List EnvVar)
        → ((n : EnvVar) → Among n some_names → Among n names)
        → All (IsFixed names) (required_problems texts some_names env)
    unfolding required_problems check_env_var
    required_problems-IsFixed [] f = tt
    required_problems-IsFixed (n ∷ ns) f =
        All-append _ _ _ (required-IsFixed names n _ (f n (inl refl)) (check_value-Among n (env n)))
          (required_problems-IsFixed ns (λ k m. f k (inr m)))

    optional_problems-IsFixed :
        (some_names : List EnvVar)
        → ((n : EnvVar) → Among n some_names → Among n names)
        → All (IsFixed names) (optional_problems texts some_names env)
    unfolding optional_problems check_env_var
    optional_problems-IsFixed [] f = tt
    optional_problems-IsFixed (n ∷ ns) f =
        All-append _ _ _ (optional-IsFixed names n _ (f n (inl refl)) (check_value-Among n (env n)))
          (optional_problems-IsFixed ns (λ k m. f k (inr m)))

  -- Whatever the variables hold, each problem that is reported is that of a variable of the service,
  -- with one of six texts that are fixed: no value is shown.
  pub find_env_problems-IsFixed :
      (service : ServiceName) (env : EnvVar → Option String)
      → All
          (IsFixed (required_env service ++ optional_env_of service))
          (find_env_problems texts service env)
  unfolding find_env_problems
  find_env_problems-IsFixed service env =
      let names = required_env service ++ optional_env_of service in
      All-append _ _ _
        (required_problems-IsFixed env names (required_env service)
          (λ n m. Any-append_left _ (required_env service) _ m))
        (optional_problems-IsFixed env names (optional_env_of service)
          (λ n m. Any-append_right _ (required_env service) _ m))

-- A service starts just when every variable it requires can be read, and reading each of its optional
-- ones gives a value or says that it is not set, in the same environment.
pub find_env_problems-none_iff :
    (texts : Texts) (service : ServiceName) (env : EnvVar → Option String)
    → (find_env_problems texts service env ≡ []) ↔ (
        All (IsReadable texts env) (required_env service)
        × All (IsOptional texts env) (optional_env_of service))
unfolding find_env_problems
find_env_problems-none_iff texts service env =
    let required = required_problems_iff texts env (required_env service) in
    let optional = optional_problems_iff texts env (optional_env_of service) in
    (
      (λ e. let (a, b) = append-nil _ _ e in (required.0 a, optional.0 b)),
      (λ (a, b). rw (required.1 a, optional.1 b) refl),
    )
