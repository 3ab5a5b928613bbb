-- ===== src/Auth/RateLimit.antt =====
-- apps/api/src/modules/auth/auth.rate-limit.ts, and the calls of it that `login` of auth.service.ts
-- makes. The lower case of a text is a parameter, the standard's mapping on all characters; whether
-- the credentials are right is part of an attempt.
pub mod Laws
pub mod Locks
use sanmarino_crm.Base.{
  ℕ, ◌+◌, ◌-◌, Bool, true, false, Option, none, some, List, [], ◌∷◌, ◌++◌, Text, text, text_eq,
  ◌==◌, contains, ltb, leb, if◌then◌else◌, get, set, delete,
}
use sanmarino_crm.Payments.Normalize.{trim}

-- The settings AUTH_LOGIN_MAX_ATTEMPTS, AUTH_LOGIN_WINDOW_MINUTES and AUTH_LOGIN_LOCK_MINUTES.
pub record Limits : Type 0 where
  pub max_attempts : ℕ
  pub window_ms : ℕ
  pub lock_ms : ℕ

pub record LoginAttemptState : Type 0 where
  pub window_started_at_ms : ℕ
  pub failure_count : ℕ
  pub locked_until_ms : Option ℕ

abbrev pub States : Type 0
States = List (Text × LoginAttemptState)

abbrev or_unknown : Text → Text
or_unknown [] = text "unknown"
or_unknown (c ∷ t) = c ∷ t

unfoldable pub to_rate_key : (Text → Text) → Text → Text → Text
unfolding trim
to_rate_key to_lower_case login client_ip =
    to_lower_case (trim login) ++ (text "|" ++ or_unknown (trim client_ip))

-- `locked` is the HttpException with status 429.
pub data Outcome : Type 0 where
  locked refused granted : Outcome

-- `!state?.lockedUntilMs`: zero is falsy.
abbrev pub lock_of : Option LoginAttemptState → ℕ
lock_of none = 0
lock_of (some s) = elim s.locked_until_ms [ none ↦ 0 | some until ↦ until ]

-- `true` is the throw.
unfoldable pub assert_not_locked : Text → ℕ → States → Bool × States
unfolding get delete
assert_not_locked key now states =
    let until = lock_of (get key states) in
    if leb until 0
    then (false, states)
    else if leb until now
    then (false, delete key states)
    else (true, states)

-- `now - previous.windowStartedAtMs > this.windowMs`
abbrev pub is_expired : Limits → ℕ → LoginAttemptState → Bool
is_expired limits now previous = ltb (previous.window_started_at_ms + limits.window_ms) now

abbrev pub first_failure : ℕ → LoginAttemptState
first_failure now = record { window_started_at_ms = now; failure_count = 1; locked_until_ms = none }

abbrev pub next_failure : Limits → ℕ → LoginAttemptState → LoginAttemptState
next_failure limits now previous = record {
  window_started_at_ms = previous.window_started_at_ms;
  failure_count = previous.failure_count + 1;
  locked_until_ms =
      if leb limits.max_attempts (previous.failure_count + 1)
      then some (now + limits.lock_ms)
      else none;
}

unfoldable pub register_failure : Limits → Text → ℕ → States → States
unfolding get set
register_failure limits key now states = elim (get key states) [
  | none ↦ set key (first_failure now) states
  | some previous ↦
      if is_expired limits now previous
      then set key (first_failure now) states
      else set key (next_failure limits now previous) states
]

-- `clear`
unfoldable pub clear : Text → States → States
unfolding delete
clear key states = delete key states

-- A login of the source: when its lock is read, when its failure is registered, and whether its
-- credentials are right.
pub record Attempt : Type 0 where
  pub key : Text
  pub asserted_at : ℕ
  pub failed_at : ℕ
  pub is_valid : Bool

-- `LoginInput`, less the password.
pub record LoginInput : Type 0 where
  pub login : Text
  pub client_ip : Text

-- The attempt of an input: `login` passes its normalized login on.
unfoldable pub attempt_of : (Text → Text) → LoginInput → ℕ → ℕ → Bool → Attempt
unfolding to_rate_key trim
attempt_of to_lower_case input asserted_at failed_at is_valid = record {
  key = to_rate_key to_lower_case (to_lower_case (trim input.login)) input.client_ip;
  asserted_at = asserted_at;
  failed_at = failed_at;
  is_valid = is_valid;
}

-- What `login` does after `await verify_credentials(…)`.
unfoldable pub end_login : Limits → Text → ℕ → Bool → States → Outcome × States
unfolding register_failure clear
end_login limits key now is_valid states =
    if is_valid
    then (granted, clear key states)
    else (refused, register_failure limits key now states)

-- A login between whose two parts no other login runs.
unfoldable pub login : Limits → Attempt → States → Outcome × States
unfolding assert_not_locked end_login
login limits a states =
    let (is_locked, after) = assert_not_locked a.key a.asserted_at states in
    if is_locked then (locked, after) else end_login limits a.key a.failed_at a.is_valid after

-- The states after a sequence of such logins.
unfoldable pub logins : Limits → List Attempt → States → States
unfolding login
logins limits [] states = states
logins limits (a ∷ later) states = logins limits later (login limits a states).1

-- `login` awaits `verify_credentials`, and others run meanwhile: the two parts of a login are events
-- of their own. The second tells whether the credentials were right.
pub data LoginEvent : Type 0 where
  starts : Text → ℕ → LoginEvent
  ends : Text → ℕ → Bool → LoginEvent

-- The states, with the keys of the logins that wait for `verify_credentials`.
pub record Running : Type 0 where
  pub states : States
  pub under_way : List Text

abbrev pub remove : Text → List Text → List Text
remove key [] = []
remove key (j ∷ js) = let rest = remove key js in if j == key then js else j ∷ rest

-- An event with its answer, if it has one. No login ends that is not under way.
unfoldable pub login_step : Limits → LoginEvent → Running → Option Outcome × Running
unfolding assert_not_locked end_login
login_step limits (starts key now) r =
    let (is_locked, after) = assert_not_locked key now r.states in
    if is_locked
    then (some locked, record r { states = after })
    else (none, record { states = after; under_way = key ∷ r.under_way })
login_step limits (ends key now is_valid) r =
    let (outcome, after) = end_login limits key now is_valid r.states in
    if contains r.under_way key
    then (some outcome, record { states = after; under_way = remove key r.under_way })
    else (none, r)

unfoldable pub login_steps : Limits → List LoginEvent → Running → Running
unfolding login_step
login_steps limits [] r = r
login_steps limits (e ∷ later) r = login_steps limits later (login_step limits e r).1

-- The answers to a sequence of events, with the events.
unfoldable pub answers : Limits → List LoginEvent → Running → List (LoginEvent × Option Outcome)
unfolding login_step
answers limits [] r = []
answers limits (e ∷ later) r =
    let (outcome, after) = login_step limits e r in (e, outcome) ∷ answers limits later after
