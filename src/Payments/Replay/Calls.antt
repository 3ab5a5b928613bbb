-- ===== src/Payments/Replay/Calls.antt =====
-- A call of payments.service.ts that is made again with its idempotency key.
use sanmarino_crm.Base.{arith, ◌∙◌, ◌≡◌, Text}
use sanmarino_crm.Action.{ok, ◌>>=◌}
use sanmarino_crm.Action.Ensures.{
  Ensures, Ensures-elim, Ensures_mono, Ensures_of_run, bind-ok, Ensures-bind,
}
use sanmarino_crm.Database.{Database, Db}
use sanmarino_crm.Records.{Payment}
use sanmarino_crm.Payments.Digest.{HashInput}
use sanmarino_crm.Payments.Idempotency.{Surroundings}
use sanmarino_crm.Payments.Calls.{Call, intake, confirm, reject, refund, answer}
use sanmarino_crm.Payments.Intake.{
  IntakeFact, IntakeInput, intake_external_payment_fact, check_intake,
}
use sanmarino_crm.Payments.Refund.{RefundOrder, RefundInput, refund_payment, check_refund}
use sanmarino_crm.Payments.Replay.Once.{IsTrimmed, run_command_twice}
use sanmarino_crm.Payments.Replay.Transactions.{
  intake_transaction-Completed, confirm_transaction-Completed, reject_transaction-Completed,
  refund_transaction-Completed,
}

module _ (D : Database) (digest : HashInput → Text) where
  -- The same request, made at another time.
  abbrev pub retried : Call D digest → Surroundings D → Call D digest
  retried (intake payload actor context _) around = intake payload actor context around
  retried (confirm id actor context _) around = confirm id actor context around
  retried (reject id reason actor context _) around = reject id reason actor context around
  retried (refund id payload actor context _) around = refund id payload actor context around

  abbrev Again : Call D digest → Payment → Db D → Type 0
  Again c p t =
      IsTrimmed p.id → (around : Surroundings D) → answer D digest (retried c around) t ≡ (ok p, t)

  check_intake-run :
      (payload : IntakeInput) (db : Db D) {fact : IntakeFact} {u : Db D}
      → check_intake D digest payload db ≡ (ok fact, u)
      → (t : Db D) → check_intake D digest payload t ≡ (ok fact, t)
  unfolding check_intake ◌>>=◌
  check_intake-run payload db e t = ground (arith, e)

  check_refund-run :
      (payload : RefundInput) (db : Db D) {order : RefundOrder} {u : Db D}
      → check_refund D digest payload db ≡ (ok order, u)
      → (t : Db D) → check_refund D digest payload t ≡ (ok order, t)
  unfolding check_refund ◌>>=◌
  check_refund-run payload db e t = ground (arith, e)

  answer-Again : (c : Call D digest) (db : Db D) → Ensures db (answer D digest c) (Again c)
  unfolding answer intake_external_payment_fact refund_payment
  answer-Again (intake payload actor context around) db =
      Ensures-bind
        (Ensures_of_run (check_intake D digest payload) db
          (λ fact u. check_intake D digest payload db ≡ (ok fact, u)) λ fact u e. e)
        λ fact u e.
          Ensures_mono
            (run_command_twice D _ _ _ actor _ around _ u (λ record_id s.
              intake_transaction-Completed D digest actor context around.performed_at record_id s
                fact))
            λ p t h trimmed again.
              bind-ok (check_intake D digest payload) _ (check_intake-run payload db e t)
              ∙ h trimmed again _
  answer-Again (confirm id actor context around) db =
      Ensures_mono
        (run_command_twice D _ _ _ actor _ around _ db (λ record_id s.
          confirm_transaction-Completed D digest actor context around.performed_at record_id s id))
        λ p t h trimmed again. h trimmed again _
  answer-Again (reject id reason actor context around) db =
      Ensures_mono
        (run_command_twice D _ _ _ actor _ around _ db (λ record_id s.
          reject_transaction-Completed D digest actor context around.performed_at record_id s id _))
        λ p t h trimmed again. h trimmed again _
  answer-Again (refund id payload actor context around) db =
      Ensures-bind
        (Ensures_of_run (check_refund D digest payload) db
          (λ order u. check_refund D digest payload db ≡ (ok order, u)) λ order u e. e)
        λ order u e.
          Ensures_mono
            (run_command_twice D _ _ _ actor _ around _ u (λ record_id s.
              refund_transaction-Completed D digest actor context around.performed_at record_id s id
                order))
            λ p t h trimmed again.
              bind-ok (check_refund D digest payload) _ (check_refund-run payload db e t)
              ∙ h trimmed again _

  -- A call that has returned a payment answers the same payment when it is made again with its key,
  -- at any time and with any interference, and then writes nothing; the payment's identifier has
  -- no white space at its ends.
  pub answer_twice :
      (c : Call D digest) (db : Db D) {p : Payment} {t : Db D}
      → answer D digest c db ≡ (ok p, t)
      → IsTrimmed p.id
      → (around : Surroundings D) → answer D digest (retried c around) t ≡ (ok p, t)
  answer_twice c db e = Ensures-elim (answer-Again c db) e
