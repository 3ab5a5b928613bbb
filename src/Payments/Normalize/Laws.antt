-- ===== src/Payments/Normalize/Laws.antt =====
-- What the checks of a payload let through.
use sanmarino_crm.Base.{ℕ, ◌<◌, ◌≡◌, arith, Text}
use sanmarino_crm.Action.{ok}
use sanmarino_crm.Payments.Normalize.{normalize_amount}

-- An amount that is let through is positive.
pub normalize_amount-pos : (raw : Text) {a : ℕ} → normalize_amount raw ≡ ok a → 0 < a
unfolding normalize_amount
normalize_amount-pos raw h = ground arith
