-- ===== src/Orders/Issue/Buckets.antt =====
-- What a walk along a bucket of reservations takes, keeps and leaves.
use sanmarino_crm.Base.{
  ℕ, ◌+◌, ◌-◌, ◌≤◌, ◌≡◌, refl, ap, true, List, [], ◌∷◌, Text, text_eq, ◌==◌, if◌then◌else◌, total,
  arith,
}
use sanmarino_crm.Orders.Issue.{BucketEntry, IssueLine, walk, min}

abbrev pub held : Text → List BucketEntry → ℕ
held k = total (λ e. e.id == k) (λ e. e.remaining_qty)

abbrev pub issued : Text → List IssueLine → ℕ
issued k = total (λ n. n.reservation_id == k) (λ n. n.qty)

abbrev pub stock : List BucketEntry → ℕ
stock = total (λ e. true) (λ e. e.remaining_qty)

abbrev pub produced : Text → List IssueLine → ℕ
produced p = total (λ n. n.product_id == p) (λ n. n.qty)

-- What is issued from a reservation is what its entry loses.
pub walk-held :
    (k p : Text) (want : ℕ) (es : List BucketEntry)
    → let w = walk p want es in issued k w.lines + held k w.bucket ≡ held k es
unfolding walk total
walk-held k p want [] = refl
walk-held k p want (e ∷ es) =
    ground (arith, walk-held k p want es, walk-held k p (want - min want e.remaining_qty) es)

pub walk-left :
    (p : Text) (want : ℕ) (es : List BucketEntry) → (walk p want es).left ≡ want - stock es
unfolding walk total
walk-left p want [] = omega arith
walk-left p want (e ∷ es) =
    ground (arith, walk-left p want es, walk-left p (want - min want e.remaining_qty) es)

pub walk-stock :
    (p : Text) (want : ℕ) (es : List BucketEntry) → stock (walk p want es).bucket ≡ stock es - want
unfolding walk total
walk-stock p want [] = omega arith
walk-stock p want (e ∷ es) =
    ground (arith, walk-stock p want es, walk-stock p (want - min want e.remaining_qty) es)

-- The lines are all of the product, and they add up to what is no longer wanted.
pub walk-produced :
    (q p : Text) (want : ℕ) (es : List BucketEntry)
    → let w = walk p want es in
      produced q w.lines + (if p == q then w.left else 0) ≡ (if p == q then want else 0)
unfolding walk total
walk-produced q p want [] = omega arith
walk-produced q p want (e ∷ es) =
    ground
      (arith, walk-produced q p want es, walk-produced q p (want - min want e.remaining_qty) es)

-- The remaining quantities by a formula: an entry gives what the entries before it could not.
abbrev pub drain : ℕ → List BucketEntry → ℕ → List BucketEntry
drain want [] before = []
drain want (e ∷ es) before =
    record e { remaining_qty = e.remaining_qty - (want - before) }
    ∷ drain want es (before + e.remaining_qty)

drain-done :
    (want : ℕ) (es : List BucketEntry) (before : ℕ) → want ≤ before → drain want es before ≡ es
drain-done want [] before h = refl
drain-done want (e ∷ es) before h =
    rw (drain-done want es (before + e.remaining_qty) (omega arith))
      (ap (λ n. record e { remaining_qty = n } ∷ es) (omega arith))

walk-drain :
    (p : Text) (want n : ℕ) (es : List BucketEntry) (before : ℕ)
    → n ≡ want - before
    → (walk p n es).bucket ≡ drain want es before
unfolding walk
walk-drain p want n [] before h = refl
walk-drain p want n (e ∷ es) before h =
    let next = walk-drain p want (n - min n e.remaining_qty) es (before + e.remaining_qty) in
    let skip = walk-drain p want n es (before + e.remaining_qty) in
    let done = drain-done want es (before + e.remaining_qty) in ground (arith, next, skip, done)

-- The walk along a bucket leaves each entry what the formula says: an entry gives of its quantity as
-- much as the entries before it could not.
pub walk-bucket :
    (p : Text) (want : ℕ) (es : List BucketEntry) → (walk p want es).bucket ≡ drain want es 0
walk-bucket p want es = walk-drain p want want es 0 (omega arith)
