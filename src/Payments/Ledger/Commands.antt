-- ===== src/Payments/Ledger/Commands.antt =====
-- What the four transactions of payments.service.ts keep, every call keeps, whatever it returns or
-- throws.
use mathlib.Core.Path.{subst}
use sanmarino_crm.Base.{Option, ℕ, ◌≡◌, refl, ◌<◌, sym, arith, List, [], ◌∷◌, none, some, Text}
use sanmarino_crm.Action.{◌>>=◌}
use sanmarino_crm.Action.Ensures.{Ensures, Ensures-from_result, Ensures_of_state, Ensures-pure}
use sanmarino_crm.Action.Leaves.{Leaves, Leaves-bind}
use sanmarino_crm.Database.{Database, Db}
use sanmarino_crm.Records.{Actor}
use sanmarino_crm.Payments.Digest.{HashInput}
use sanmarino_crm.Payments.Idempotency.{CommandContext, Surroundings}
use sanmarino_crm.Payments.Intake.{
  IntakeFact, IntakeInput, intake_external_payment_fact, check_intake, intake_transaction,
}
use sanmarino_crm.Payments.Refund.{
  RefundOrder, RefundInput, refund_payment, check_refund, refund_transaction,
}
use sanmarino_crm.Payments.Normalize.Laws.{normalize_amount-pos}
use sanmarino_crm.Payments.Ledger.Transactions.Intake.{intake_transaction-Balanced}
use sanmarino_crm.Payments.Ledger.Transactions.Confirm.{confirm_transaction-Balanced}
use sanmarino_crm.Payments.Ledger.Transactions.Reject.{reject_transaction-Balanced}
use sanmarino_crm.Payments.Ledger.Transactions.Refund.{refund_transaction-Balanced}
use sanmarino_crm.Payments.Ledger.{sheet, Balanced}
use sanmarino_crm.Payments.Calls.{Call, intake, confirm, reject, refund, answer, after}
use sanmarino_crm.Payments.Ledger.Frame.{run_command-Leaves}
use sanmarino_crm.Payments.Confirm.{confirm_transaction}
use sanmarino_crm.Payments.Reject.{reject_transaction}
use sanmarino_crm.Payments.Ledger.{Sheet}

-- A property of the books that each transaction keeps.
pub record Keeps (D : Database) (digest : HashInput → Text) (P : Sheet → Type 0) : Type 0 where
  pub intake :
      (fact : IntakeFact) (actor : Actor) (context : CommandContext) (now : ℕ) (record_id : Text)
      (s : Db D)
      → 0 < fact.amount
      → P (sheet D s)
      → Ensures s
          (intake_transaction D digest fact actor context now record_id)
          (λ _ t. P (sheet D t))
  pub confirm :
      (id : Text) (actor : Actor) (context : CommandContext) (now : ℕ) (record_id : Text) (s : Db D)
      → P (sheet D s)
      → Ensures s
          (confirm_transaction D digest id actor context now record_id)
          (λ _ t. P (sheet D t))
  pub reject :
      (id : Text) (reason : Option Text) (actor : Actor) (context : CommandContext) (now : ℕ)
      (record_id : Text) (s : Db D)
      → P (sheet D s)
      → Ensures s
          (reject_transaction D digest id reason actor context now record_id)
          (λ _ t. P (sheet D t))
  pub refund :
      (id : Text) (order : RefundOrder) (actor : Actor) (context : CommandContext) (now : ℕ)
      (record_id : Text) (s : Db D)
      → P (sheet D s)
      → Ensures s
          (refund_transaction D digest id order actor context now record_id)
          (λ _ t. P (sheet D t))

module _ (D : Database) (digest : HashInput → Text) {P : Sheet → Type 0}
    (keeps : Keeps D digest P) where
  check_intake-state :
      (payload : IntakeInput) (db : Db D) → (check_intake D digest payload db).1 ≡ db
  unfolding check_intake ◌>>=◌
  check_intake-state payload db = ground arith

  check_intake_positive :
      (payload : IntakeInput) (db : Db D)
      → Ensures db (check_intake D digest payload) (λ fact t. (0 < fact.amount) × (t ≡ db))
  unfolding check_intake
  check_intake_positive payload db = Ensures-from_result _ _ λ amount e.
      Ensures-from_result _ _ λ source _.
        Ensures-from_result _ _
          λ event_id _. Ensures-pure _ (normalize_amount-pos payload.amount e, refl)

  intake-Leaves :
      (payload : IntakeInput) (actor : Actor) (context : CommandContext) (around : Surroundings D)
      (db : Db D)
      → P (sheet D db)
      → Leaves db
          (intake_external_payment_fact D digest payload actor context around)
          (λ t. P (sheet D t))
  unfolding intake_external_payment_fact
  intake-Leaves payload actor context around db b =
      Leaves-bind (check_intake D digest payload) _ (λ fact t. (0 < fact.amount) × (t ≡ db))
        (record { at = subst Books (sym (check_intake-state payload db)) b })
        (check_intake_positive payload db)
        λ fact t (positive, same).
          run_command-Leaves D P around _ _ _ actor none _ t (subst Books (sym same) b)
            (λ record_id s e.
              keeps.intake fact actor context around.performed_at record_id s positive
                (subst P (sym e) (subst Books (sym same) b)))
    where
      Books : Db D → Type 0
      Books t = P (sheet D t)

  check_refund-state :
      (payload : RefundInput) (db : Db D) → (check_refund D digest payload db).1 ≡ db
  unfolding check_refund ◌>>=◌
  check_refund-state payload db = ground arith

  refund-Leaves :
      (id : Text) (payload : RefundInput) (actor : Actor) (context : CommandContext)
      (around : Surroundings D) (db : Db D)
      → P (sheet D db)
      → Leaves db (refund_payment D digest id payload actor context around) (λ t. P (sheet D t))
  unfolding refund_payment
  refund-Leaves id payload actor context around db b =
      Leaves-bind (check_refund D digest payload) _ (λ _ t. t ≡ db)
        (record { at = subst Books (sym (check_refund-state payload db)) b })
        (Ensures_of_state _ db (λ t. t ≡ db) (check_refund-state payload db))
        λ order t same.
          run_command-Leaves D P around _ _ _ actor (some id) _ t (subst Books (sym same) b)
            (λ record_id s e.
              keeps.refund id order actor context around.performed_at record_id s
                (subst P (sym e) (subst Books (sym same) b)))
    where
      Books : Db D → Type 0
      Books t = P (sheet D t)

  -- Every call keeps it.
  answer-Keeps :
      (c : Call D digest) (db : Db D) → P (sheet D db) → P (sheet D (answer D digest c db).1)
  unfolding answer
  answer-Keeps (intake payload actor context around) db b =
      (intake-Leaves payload actor context around db b).at
  answer-Keeps (confirm id actor context around) db b =
      (run_command-Leaves D P around _ _ _ actor _ _ db b (λ record_id s e.
        keeps.confirm id actor context around.performed_at record_id s (subst P (sym e) b))).at
  answer-Keeps (reject id reason actor context around) db b =
      (run_command-Leaves D P around _ _ _ actor _ _ db b (λ record_id s e.
        keeps.reject id _ actor context around.performed_at record_id s (subst P (sym e) b))).at
  answer-Keeps (refund id payload actor context around) db b =
      (refund-Leaves id payload actor context around db b).at

  -- So does every sequence of calls, of any callers and with any interference on the idempotency
  -- records.
  pub after-Keeps :
      (cs : List (Call D digest)) (db : Db D) → P (sheet D db) → P (sheet D (after D digest cs db))
  unfolding after
  after-Keeps [] db b = b
  after-Keeps (c ∷ cs) db b = after-Keeps cs (answer D digest c db).1 (answer-Keeps c db b)

pub Balanced-Keeps : (D : Database) (digest : HashInput → Text) → Keeps D digest Balanced
Balanced-Keeps D digest = record {
  intake = intake_transaction-Balanced D digest;
  confirm = confirm_transaction-Balanced D digest;
  reject = reject_transaction-Balanced D digest;
  refund = refund_transaction-Balanced D digest;
}

-- After any sequence of calls, of any callers and with any interference on the idempotency records,
-- the books are in balance if they were at the start.
pub after-Balanced :
    (D : Database) (digest : HashInput → Text) (cs : List (Call D digest)) (db : Db D)
    → Balanced (sheet D db)
    → Balanced (sheet D (after D digest cs db))
after-Balanced D digest = after-Keeps D digest (Balanced-Keeps D digest)
