-- ===== src/Payments/Ledger/Progress.antt =====
-- What the payment commands do to the payments that are there already.
use sanmarino_crm.Base.{
  ◌≤◌, ◌≡◌, refl, sym, true, some, List, ◌∷◌, Text, text_eq, ◌==◌, All, All-found, All-mono,
  All-of_Mem, All-Mem, Mem, there, first-Mem, Mem-change_hit, Mem-change_miss, first, change, arith,
  Distinct, first-test, ==-refl, ◌∙◌,
}
use sanmarino_crm.Records.{Payment}
use sanmarino_crm.Status.{payment_status_eq}
use sanmarino_crm.Transition.Matrices.{payment_status_transition_matrix}
use sanmarino_crm.Transition.Reach.{Reach, Reach-trans}
use sanmarino_crm.Payments.Ledger.Updates.{is_payment, is_payment-id}

-- The later state of a payment: its status is one that the matrix leads to, what it is and what it
-- is worth stays, and what is refunded of it does not shrink.
pub record Advances (p q : Payment) : Type 0 where
  pub status : Reach payment_status_transition_matrix p.status q.status
  pub id : q.id ≡ p.id
  pub order_id : q.order_id ≡ p.order_id
  pub amount : q.amount ≡ p.amount
  pub refunded : p.refunded_amount ≤ q.refunded_amount

Advances-refl : (p : Payment) → Advances p p
Advances-refl p = record {
  status = Reach.here;
  id = refl;
  order_id = refl;
  amount = refl;
  refunded = omega arith;
}

Advances-trans : (p q r : Payment) → Advances p q → Advances q r → Advances p r
Advances-trans p q r a b = record {
  status = Reach-trans _ a.status b.status;
  id = b.id ∙ a.id;
  order_id = b.order_id ∙ a.order_id;
  amount = b.amount ∙ a.amount;
  refunded = ground (arith, a.refunded, b.refunded);
}

-- Each payment of the first list has a later state in the second.
abbrev pub Follows : List Payment → List Payment → Type 0
Follows old new = All (λ p. (q : Payment) × Mem q new × Advances p q) old

pub Follows-refl : (l : List Payment) → Follows l l
Follows-refl l = All-of_Mem _ l λ p m. (p, m, Advances-refl p)

pub Follows-trans : (a b c : List Payment) → Follows a b → Follows b c → Follows a c
Follows-trans a b c h k =
    All-mono _ _ a
      (λ p (q, m, ad). let (r, n, later) = All-Mem _ b k m in (r, n, Advances-trans p q r ad later))
      h

pub Follows-create : (p : Payment) (l : List Payment) → Follows l (p ∷ l)
Follows-create p l = All-of_Mem _ l λ q m. (q, there m, Advances-refl q)

-- An update of the payment that a command has read.
pub Follows-change :
    (k : Text) (f : Payment → Payment) (l : List Payment) {p : Payment}
    → Distinct (λ q. q.id) l
    → first (is_payment k) l ≡ some p
    → Advances p (f p)
    → Follows l (change (λ q. q.id == p.id) f l)
Follows-change k f l {p} distinct found step =
    All-found (λ q. q.id) (λ q. Mem q l) _ (is_payment k) p.id l distinct found only
      (All-of_Mem _ l (λ q m. m))
      (f p, Mem-change_hit _ f l (first-Mem _ l found) (==-refl p.id), step)
      (λ q m away. (q, Mem-change_miss _ f l m (ground arith), Advances-refl q))
  where
    only : (q : Payment) → is_payment k q ≡ true → q.id ≡ p.id
    only q t = is_payment-id k q t ∙ sym (is_payment-id k p (first-test (is_payment k) l found))
