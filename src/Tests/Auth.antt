-- ===== src/Tests/Auth.antt =====
-- The limit on failed logins at a concrete account.
use sanmarino_crm.Base.{
  ℕ, ◌+◌, ◌≡◌, refl, Bool, true, false, none, some, List, [], ◌∷◌, Text, text, text_eq, get, set,
  All, arith,
}
use sanmarino_crm.Auth.RateLimit.{
  Limits, States, Attempt, lock_of, logins, answers, LoginEvent, starts, ends, login_steps,
}
use sanmarino_crm.Auth.RateLimit.Laws.{IsLimited, login_steps-AreLimited}
use sanmarino_crm.Auth.RateLimit.Locks.{Held, IsLockedOut, answers_locked, failures_lock}

abbrev limits : Limits
limits = record { max_attempts = 3; window_ms = 900_000; lock_ms = 600_000 }

abbrev key : Text
key = text "ann|10.0.0.1"

abbrev attempt : Bool → ℕ → Attempt
attempt is_valid at = record { key = key; asserted_at = at; failed_at = at; is_valid = is_valid }

-- One failure so far.
abbrev failing : States
failing =
    (key, record { window_started_at_ms = 1_000; failure_count = 1; locked_until_ms = none }) ∷ []

abbrev holding : States
holding =
    (
      key,
      record { window_started_at_ms = 1_000; failure_count = 3; locked_until_ms = some 603_000 },
    )
    ∷ []

start-IsLimited : (k : Text) → IsLimited limits (get k [])
unfolding get
start-IsLimited k = tt

-- Four logins start before the first has failed.
abbrev burst : List LoginEvent
burst =
    starts key 5_000
    ∷ starts key 5_001
    ∷ starts key 5_002
    ∷ starts key 5_003
    ∷ ends key 5_010 false
    ∷ ends key 5_011 false
    ∷ ends key 5_012 false
    ∷ ends key 5_013 false
    ∷ []

login_steps-AreLimited_example :
    IsLimited limits
      (get key (login_steps limits burst record { states = []; under_way = [] }).states)
login_steps-AreLimited_example =
    login_steps-AreLimited limits (omega arith) (omega arith) burst
      record { states = []; under_way = [] } start-IsLimited key

-- More failures are counted than are allowed.
burst_counts :
    get key (login_steps limits burst record { states = []; under_way = [] }).states
    ≡ some
        (record { window_started_at_ms = 5_010; failure_count = 4; locked_until_ms = some 605_013 })
unfolding login_steps get set text_eq
burst_counts = refl

abbrev meanwhile : List LoginEvent
meanwhile =
    starts (text "bob|10.0.0.2") 3_000
    ∷ starts key 4_000
    ∷ ends (text "bob|10.0.0.2") 4_500 true
    ∷ starts key 5_000
    ∷ []

held : Held key 603_000 record { states = holding; under_way = [] }
unfolding get text_eq
held = record { lock = refl; idle = refl }

answers_locked_example :
    All
      (λ (e, answer). IsLockedOut key e answer)
      (answers limits meanwhile record { states = holding; under_way = [] })
answers_locked_example =
    answers_locked limits key 603_000 meanwhile record { states = holding; under_way = [] } held
      (omega arith, (omega arith, (tt, (omega arith, tt))))

failing_found :
    get key failing
    ≡ some (record { window_started_at_ms = 1_000; failure_count = 1; locked_until_ms = none })
unfolding get text_eq
failing_found = refl

failures_lock_example :
    lock_of (get key (logins limits (attempt false 2_000 ∷ attempt false 3_000 ∷ []) failing))
    ≡ 3_000 + 600_000
failures_lock_example =
    failures_lock limits key (attempt false 2_000) (attempt false 3_000 ∷ []) failing
      (record { window_started_at_ms = 1_000; failure_count = 1; locked_until_ms = none })
      failing_found refl refl ((refl, refl, omega arith), ((refl, refl, omega arith), tt))
