-- ===== src/Auth/RateLimit/Laws.antt =====
-- What the limit on failed logins keeps, for every sequence of logins.
use mathlib.Core.Path.{subst}
use sanmarino_crm.Base.{
  sym, ℕ, ◌≤◌, ◌<◌, ◌≡◌, ◌⊎◌, inl, inr, Bool-cases, Bool, true, false, Option, none, some, List, [],
  ◌∷◌, Text, text_eq, ◌==◌, contains, leb, if◌then◌else◌, get, set, delete, get-set, get-delete,
  arith,
}
use sanmarino_crm.Auth.RateLimit.{
  Limits, LoginAttemptState, States, lock_of, LoginEvent, starts, ends, Running, login_step,
  login_steps, end_login, is_expired, first_failure, next_failure, assert_not_locked,
  register_failure, clear,
}

-- Fewer failures than are allowed are counted and there is no lock, or as many as are allowed, or
-- more, and there is one.
abbrev pub IsLimited : Limits → Option LoginAttemptState → Type 0
IsLimited limits none = Unit
IsLimited limits (some s) =
    ((s.failure_count < limits.max_attempts) × (s.locked_until_ms ≡ none))
    ⊎ ((limits.max_attempts ≤ s.failure_count) × (0 < lock_of (some s)))

module _ (limits : Limits) (several : 2 ≤ limits.max_attempts) (lasting : 0 < limits.lock_ms) where
  abbrev pub AreLimited : States → Type 0
  AreLimited states = (k : Text) → IsLimited limits (get k states)

  limited_delete :
      (key : Text) (states : States) → AreLimited states → AreLimited (delete key states)
  limited_delete key states h k =
      subst (IsLimited limits) (sym (get-delete k key states)) (pick (key == k))
    where
      pick : (b : Bool) → IsLimited limits (if b then none else get k states)
      pick true = tt
      pick false = h k

  limited_set :
      (key : Text) (s : LoginAttemptState) (states : States)
      → IsLimited limits (some s)
      → AreLimited states
      → AreLimited (set key s states)
  limited_set key s states own h k =
      subst (IsLimited limits) (sym (get-set k key s states)) (pick (key == k))
    where
      pick : (b : Bool) → IsLimited limits (if b then some s else get k states)
      pick true = own
      pick false = h k

  assert_not_locked-IsLimited :
      (key : Text) (now : ℕ) (states : States)
      → AreLimited states
      → AreLimited (assert_not_locked key now states).1
  unfolding assert_not_locked
  assert_not_locked-IsLimited key now states h k =
      elim (Bool-cases (leb (lock_of (get key states)) 0)) [
        | inl free ↦ rw free (h k)
        | inr lock ↦ elim (Bool-cases (leb (lock_of (get key states)) now)) [
          | inl over ↦ rw (lock, over) (limited_delete key states h k)
          | inr lasts ↦ rw (lock, lasts) (h k)
        ]
      ]

  register_failure-IsLimited :
      (key : Text) (now : ℕ) (states : States)
      → AreLimited states
      → AreLimited (register_failure limits key now states)
  unfolding register_failure
  register_failure-IsLimited key now states h = go (get key states)
    where
      go :
          (o : Option LoginAttemptState)
          → AreLimited (elim o as (λ _. States) [
            | none ↦ set key (first_failure now) states
            | some previous ↦
                if is_expired limits now previous
                then set key (first_failure now) states
                else set key (next_failure limits now previous) states
          ])
      go none = limited_set key (first_failure now) states (ground (arith, several)) h
      go (some previous) = elim (Bool-cases (is_expired limits now previous)) [
        | inl old ↦ rw old (limited_set key (first_failure now) states (ground (arith, several)) h)
        | inr recent ↦ rw recent (
            limited_set key (next_failure limits now previous) states
              (ground (arith, several, lasting)) h)
      ]

  end_login-IsLimited :
      (key : Text) (now : ℕ) (is_valid : Bool) (states : States)
      → AreLimited states
      → AreLimited (end_login limits key now is_valid states).1
  unfolding end_login clear
  end_login-IsLimited key now true states h = limited_delete key states h
  end_login-IsLimited key now false states h = register_failure-IsLimited key now states h

  login_step-IsLimited :
      (e : LoginEvent) (r : Running)
      → AreLimited r.states
      → AreLimited (login_step limits e r).1.states
  unfolding login_step
  login_step-IsLimited (starts key now) r h =
      elim (Bool-cases (assert_not_locked key now r.states).0) [
        | inl t ↦ rw t (assert_not_locked-IsLimited key now r.states h)
        | inr f ↦ rw f (assert_not_locked-IsLimited key now r.states h)
      ]
  login_step-IsLimited (ends key now is_valid) r h = elim (Bool-cases (contains r.under_way key)) [
    | inl t ↦ rw t (end_login-IsLimited key now is_valid r.states h)
    | inr f ↦ rw f h
  ]

  -- However logins are interleaved, each key that has failures counted has fewer than are allowed and
  -- no lock, or as many as are allowed or more and a lock; at least two failures are allowed, a lock
  -- lasts, and it is so at the start.
  pub login_steps-AreLimited :
      (events : List LoginEvent) (r : Running)
      → AreLimited r.states
      → AreLimited (login_steps limits events r).states
  unfolding login_steps
  login_steps-AreLimited [] r h = h
  login_steps-AreLimited (e ∷ later) r h =
      login_steps-AreLimited later (login_step limits e r).1 (login_step-IsLimited e r h)
