-- ===== src/Auth/RateLimit/Locks.antt =====
-- Locks of the limit on failed logins: when one is set, and that it holds until it runs out.
use mathlib.Core.Path.{subst}
use sanmarino_crm.Base.{
  suc, length, sym, ap, ◌∙◌, ==-refl, ℕ, ◌+◌, ◌≤◌, ◌<◌, ◌≡◌, inl, inr, Bool-cases, refl, true,
  false, Option, none, some, List, [], ◌∷◌, Text, text_eq, ◌==◌, contains, Bool, leb, if◌then◌else◌,
  get, set, delete, get-set, get-delete, All, arith,
}
use sanmarino_crm.Auth.RateLimit.{
  Limits, LoginAttemptState, States, Outcome, locked, lock_of, Attempt, login, logins, answers,
  is_expired, LoginEvent, starts, ends, Running, login_step, end_login, remove, first_failure,
  next_failure, assert_not_locked, register_failure, clear,
}

module _ (limits : Limits) (key j : Text) (away : (j == key) ≡ false) where
  -- A call for one key leaves the states of the others.
  delete-away : (states : States) → get key (delete j states) ≡ get key states
  delete-away states = get-delete key j states ∙ rw away refl

  set-away : (s : LoginAttemptState) (states : States) → get key (set j s states) ≡ get key states
  set-away s states = get-set key j s states ∙ rw away refl

  assert_not_locked-away :
      (now : ℕ) (states : States) → get key (assert_not_locked j now states).1 ≡ get key states
  unfolding assert_not_locked
  assert_not_locked-away now states = ground (arith, delete-away states)

  register_failure-away :
      (now : ℕ) (states : States) → get key (register_failure limits j now states) ≡ get key states
  unfolding register_failure
  register_failure-away now states = go (get j states)
    where
      go :
          (o : Option LoginAttemptState)
          → get key (elim o as (λ _. States) [
            | none ↦ set j (first_failure now) states
            | some previous ↦
                if is_expired limits now previous
                then set j (first_failure now) states
                else set j (next_failure limits now previous) states
          ])
            ≡ get key states
      go none = set-away (first_failure now) states
      go (some previous) = elim (Bool-cases (is_expired limits now previous)) [
        | inl old ↦ rw old (set-away (first_failure now) states)
        | inr recent ↦ rw recent (set-away (next_failure limits now previous) states)
      ]

-- The key has a lock, and no login with it is under way.
pub record Held (key : Text) (until : ℕ) (r : Running) : Type 0 where
  pub lock : lock_of (get key r.states) ≡ until
  pub idle : contains r.under_way key ≡ false

abbrev pub IsEarly : ℕ → LoginEvent → Type 0
IsEarly until (starts j at) = at < until
IsEarly until (ends j at is_valid) = Unit

abbrev pub IsLockedOut : Text → LoginEvent → Option Outcome → Type 0
IsLockedOut key (starts j at) answer = j ≡ key → answer ≡ some locked
IsLockedOut key (ends j at is_valid) answer = Unit

still_idle :
    (key j : Text) (l : List Text) → contains l key ≡ false → contains (remove j l) key ≡ false
still_idle key j [] h = h
still_idle key j (x ∷ xs) h = ground (arith, h, still_idle key j xs)

end_login-away :
    (limits : Limits) (key j : Text) (now : ℕ) (is_valid : Bool) (states : States)
    → (j == key) ≡ false
    → get key (end_login limits j now is_valid states).1 ≡ get key states
unfolding end_login clear
end_login-away limits key j now true states away = delete-away limits key j away states
end_login-away limits key j now false states away =
    register_failure-away limits key j away now states

-- A lock in force stops a login at its start.
assert_not_locked-locked :
    (key : Text) (now : ℕ) (states : States)
    → now < lock_of (get key states)
    → assert_not_locked key now states ≡ (true, states)
unfolding assert_not_locked
assert_not_locked-locked key now states early =
    let some_lock : leb (lock_of (get key states)) 0 ≡ false = ground (arith, early) in
    let lasts : leb (lock_of (get key states)) now ≡ false = ground (arith, early) in
    rw (some_lock, lasts) refl

login_step-Held :
    (limits : Limits) (key : Text) (until : ℕ) (e : LoginEvent) (r : Running)
    → IsEarly until e
    → Held key until r
    → Held key until (login_step limits e r).1 × IsLockedOut key e (login_step limits e r).0
unfolding login_step
login_step-Held limits key until (starts j at) r early h = elim (Bool-cases (j == key)) [
  | inl same ↦
      let own : j ≡ key = ground (arith, same) in
      let run = assert_not_locked-locked j at r.states (rw (own, h.lock) early) in
      rw run (record { lock = h.lock; idle = h.idle }, λ _. refl)
  | inr away ↦
      let kept = ap lock_of (assert_not_locked-away limits key j away at r.states) ∙ h.lock in
      elim (Bool-cases (assert_not_locked j at r.states).0) [
        | inl t ↦ rw t (record { lock = kept; idle = h.idle }, λ _. refl)
        | inr f ↦ rw f (
          record { lock = kept; idle = ground (arith, away, h.idle) },
          λ own. absurd (ground (arith, own, away)),
        )
      ]
]
login_step-Held limits key until (ends j at is_valid) r early h =
    elim (Bool-cases (contains r.under_way j)) [
      | inr f ↦ rw f (h, tt)
      | inl t ↦ elim (Bool-cases (j == key)) [
        | inl same ↦ let own : j ≡ key = ground (arith, same) in absurd (cc (rw own at t, h.idle))
        | inr away ↦ rw t (
          record {
            lock = ap lock_of (end_login-away limits key j at is_valid r.states away) ∙ h.lock;
            idle = still_idle key j r.under_way h.idle;
          },
          tt,
        )
      ]
    ]

-- Until a lock runs out, every login with its key that starts is answered `locked`, however other
-- logins are interleaved and whatever their credentials, if no login with the key was under way when
-- the lock was in force first.
pub answers_locked :
    (limits : Limits) (key : Text) (until : ℕ) (events : List LoginEvent) (r : Running)
    → Held key until r
    → All (IsEarly until) events
    → All (λ (e, answer). IsLockedOut key e answer) (answers limits events r)
unfolding answers
answers_locked limits key until [] r h early = tt
answers_locked limits key until (e ∷ later) r h early =
    let step = login_step-Held limits key until e r early.0 h in
    (step.1, answers_locked limits key until later (login_step limits e r).1 step.0 early.1)

login-fails :
    (limits : Limits) (a : Attempt) (states : States) {s : LoginAttemptState}
    → get a.key states ≡ some s
    → s.locked_until_ms ≡ none
    → a.is_valid ≡ false
    → is_expired limits a.failed_at s ≡ false
    → get a.key (login limits a states).1 ≡ some (next_failure limits a.failed_at s)
unfolding login assert_not_locked end_login register_failure
login-fails limits a states {s} found open_key invalid recent =
    let unlocked : leb (lock_of (get a.key states)) 0 ≡ true = ground (arith, found, open_key) in
    rw (unlocked, invalid, found, recent)
      (get-set a.key a.key (next_failure limits a.failed_at s) states ∙ rw (==-refl a.key) refl)

abbrev last_failure : Attempt → List Attempt → ℕ
last_failure a [] = a.failed_at
last_failure a (b ∷ later) = last_failure b later

-- A failed attempt of the key, within the window.
abbrev pub FailsWithin : Text → ℕ → Attempt → Type 0
FailsWithin key last a = (a.key ≡ key) × (a.is_valid ≡ false) × (a.failed_at ≤ last)

failed_within :
    (limits : Limits) (key : Text) (a : Attempt) (states : States) (s : LoginAttemptState)
    → get key states ≡ some s
    → s.locked_until_ms ≡ none
    → FailsWithin key (s.window_started_at_ms + limits.window_ms) a
    → get key (login limits a states).1 ≡ some (next_failure limits a.failed_at s)
failed_within limits key a states s found open_key (own, invalid, recent) =
    subst (λ k. get k (login limits a states).1 ≡ some (next_failure limits a.failed_at s)) own
      (login-fails limits a states (subst (λ k. get k states ≡ some s) (sym own) found) open_key
        invalid (ground (arith, recent)))

-- From a key with failures counted and no lock, as many failed logins with it as are still allowed,
-- one after another within the window, end in a lock that lasts from the last failure on.
pub failures_lock :
    (limits : Limits) (key : Text) (a : Attempt) (later : List Attempt) (states : States)
    (s : LoginAttemptState)
    → get key states ≡ some s
    → s.locked_until_ms ≡ none
    → s.failure_count + suc (length later) ≡ limits.max_attempts
    → All (FailsWithin key (s.window_started_at_ms + limits.window_ms)) (a ∷ later)
    → lock_of (get key (logins limits (a ∷ later) states)) ≡ last_failure a later + limits.lock_ms
unfolding logins
failures_lock limits key a [] states s found open_key count within =
    ap lock_of (failed_within limits key a states s found open_key within.0) ∙ rw (full) refl
  where
    full : leb limits.max_attempts (s.failure_count + 1) ≡ true
    full = ground (arith, count)
failures_lock limits key a (b ∷ later) states s found open_key count within =
    failures_lock limits key b later (login limits a states).1 (next_failure limits a.failed_at s)
      (failed_within limits key a states s found open_key within.0) (rw few refl)
      (omega (arith, count)) within.1
  where
    few : leb limits.max_attempts (s.failure_count + 1) ≡ false
    few = ground (arith, count)
