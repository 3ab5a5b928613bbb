-- ===== src/Payments/Ledger/Conformity.antt =====
-- The payments that are there already, across the calls of payments.service.ts.
use mathlib.Core.Path.{subst}
use sanmarino_crm.Base.{
  ap, some, first, change, ℕ, ◌+◌, ◌≡◌, sym, refl, Bool, true, false, List, Text, text_eq, ◌==◌,
  arith, if◌then◌else◌,
}
use sanmarino_crm.Action.Ensures.{Ensures, Ensures_mono, Ensures-and}
use sanmarino_crm.Action.{Action}
use sanmarino_crm.Payments.Ledger.Updates.{is_payment}
use sanmarino_crm.Database.{Database, Db}
use sanmarino_crm.Payments.Digest.{HashInput}
use sanmarino_crm.Payments.Calls.{Call, after}
use sanmarino_crm.Payments.Refund.{within}
use sanmarino_crm.Payments.Ledger.{Sheet, sheet, Balanced}
use sanmarino_crm.Payments.Ledger.Commands.{Keeps, Balanced-Keeps, after-Keeps}
use sanmarino_crm.Payments.Ledger.Progress.{
  Advances, Follows, Follows-refl, Follows-trans, Follows-create, Follows-change,
}
use sanmarino_crm.Payments.Ledger.Transactions.Intake.{intake_transaction-Intaked}
use sanmarino_crm.Payments.Ledger.Transactions.Confirm.{confirm_transaction-Confirmed}
use sanmarino_crm.Payments.Ledger.Transactions.Reject.{reject_transaction-Rejected}
use sanmarino_crm.Payments.Ledger.Transactions.Refund.{refund_transaction-Refunded}
use sanmarino_crm.Records.{Payment}
use sanmarino_crm.Status.{PaymentStatus, payment_status_eq}
use sanmarino_crm.Transition.{assert_transition}
use sanmarino_crm.Transition.Matrices.{payment_status_transition_matrix}
use sanmarino_crm.Transition.Reach.{Reach, here, next}

abbrev Led : PaymentStatus → PaymentStatus → Type 0
Led = Reach payment_status_transition_matrix

confirmed : Led PaymentStatus.pending PaymentStatus.completed
unfolding assert_transition payment_status_eq
confirmed = next here "payments.payment" refl

rejected : Led PaymentStatus.pending PaymentStatus.rejected
unfolding assert_transition payment_status_eq
rejected = next here "payments.payment" refl

-- The payment is refunded as a whole, and what it is then.
abbrev settles : Payment → ℕ → Bool
settles p amount = within p.amount (p.refunded_amount + amount)

abbrev after_refund : Payment → ℕ → PaymentStatus
after_refund p amount = if settles p amount then PaymentStatus.refunded else PaymentStatus.completed

refunded :
    (whole : Bool)
    → Led PaymentStatus.completed
        (if whole then PaymentStatus.refunded else PaymentStatus.completed)
unfolding assert_transition payment_status_eq
refunded true = next here "payments.payment" refl
refunded false = here

module _ (D : Database) (digest : HashInput → Text) (base : List Payment) where
  abbrev Conforms : Sheet → Type 0
  Conforms s = Balanced s × Follows base s.payments

  -- One transaction, by what it has read and written.
  both :
      {s : Db D} {m : Action (Db D) Text} {Written : Text → Db D → Type 0}
      → Ensures s m (λ _ t. Balanced (sheet D t))
      → Ensures s m Written
      → ((id : Text) (t : Db D) → Written id t → Follows base (sheet D t).payments)
      → Ensures s m (λ _ t. Conforms (sheet D t))
  both {s} {m} {Written} b w follows =
      Ensures_mono (Ensures-and m (λ _ t. Balanced (sheet D t)) Written b w)
        λ id t h. (h.0, follows id t h.1)

  changed :
      (k : Text) (f : Payment → Payment) (s t : Sheet) {p : Payment}
      → Conforms s
      → first (is_payment k) s.payments ≡ some p
      → Advances p (f p)
      → t.payments ≡ change (λ q. q.id == p.id) f s.payments
      → Follows base t.payments
  changed k f s t h found step e = subst (Follows base) (sym e) (
      Follows-trans base s.payments _ h.1
        (Follows-change k f s.payments h.0.distinct_payments found step))

  Conforms-Keeps : Keeps D digest Conforms
  Conforms-Keeps =
      let balanced = Balanced-Keeps D digest in
      record {
        intake = λ fact actor context now record_id s positive h.
            both (balanced.intake fact actor context now record_id s positive h.0)
              (intake_transaction-Intaked D digest fact actor context now record_id s)
              λ id t c.
                subst (Follows base) (sym (ap (λ x. x.payments) c.written))
                  (Follows-trans base (sheet D s).payments _ h.1 (Follows-create _ _));
        confirm = λ id actor context now record_id s h.
            both (balanced.confirm id actor context now record_id s h.0)
              (confirm_transaction-Confirmed D digest id actor context now record_id s)
              λ _ t c.
                changed id _ (sheet D s) (sheet D t) h c.found
                  (record {
                    status = subst (λ x. Led x PaymentStatus.completed) (sym c.pending) confirmed;
                    id = refl;
                    order_id = refl;
                    amount = refl;
                    refunded = omega arith;
                  })
                  (ap (λ x. x.payments) c.written);
        reject = λ id reason actor context now record_id s h.
            both (balanced.reject id reason actor context now record_id s h.0)
              (reject_transaction-Rejected D digest id reason actor context now record_id s)
              λ _ t c.
                changed id _ (sheet D s) (sheet D t) h c.found
                  (record {
                    status = subst (λ x. Led x PaymentStatus.rejected) (sym c.pending) rejected;
                    id = refl;
                    order_id = refl;
                    amount = refl;
                    refunded = omega arith;
                  })
                  (ap (λ x. x.payments) c.written);
        refund = λ id order actor context now record_id s h.
            both (balanced.refund id order actor context now record_id s h.0)
              (refund_transaction-Refunded D digest id order actor context now record_id s)
              λ _ t c.
                changed id _ (sheet D s) (sheet D t) h c.found
                  (record {
                    status =
                        subst (λ x. Led x (after_refund c.payment order.amount)) (sym c.completed)
                          (refunded (settles c.payment order.amount));
                    id = refl;
                    order_id = refl;
                    amount = refl;
                    refunded = omega arith;
                  })
                  (ap (λ x. x.payments) c.written);
      }

-- Across any sequence of calls on books in balance no payment is lost: each keeps its identifier,
-- its order and its amount, what is refunded of it does not shrink, and its status is one that the
-- transition matrix leads to.
pub after-Follows :
    (D : Database) (digest : HashInput → Text) (cs : List (Call D digest)) (db : Db D)
    → Balanced (sheet D db)
    → Follows (sheet D db).payments (sheet D (after D digest cs db)).payments
after-Follows D digest cs db b =
    (after-Keeps D digest (Conforms-Keeps D digest (sheet D db).payments) cs db
      (b, Follows-refl (sheet D db).payments)).1
