-- ===== src/Payments/Calls.antt =====
-- A caller of payments.service.ts: its four commands as one type of calls, and sequences of them.
use sanmarino_crm.Base.{List, [], ◌∷◌, Option, Text}
use sanmarino_crm.Action.{Action}
use sanmarino_crm.Database.{Database, Db}
use sanmarino_crm.Records.{Payment, Actor}
use sanmarino_crm.Payments.Digest.{HashInput}
use sanmarino_crm.Payments.Idempotency.{CommandContext, Surroundings}
use sanmarino_crm.Payments.Intake.{IntakeInput, intake_external_payment_fact}
use sanmarino_crm.Payments.Confirm.{confirm_external_payment_fact}
use sanmarino_crm.Payments.Reject.{reject_external_payment_fact}
use sanmarino_crm.Payments.Refund.{RefundInput, refund_payment}

module _ (D : Database) (digest : HashInput → Text) where
  -- One call of the payments service.
  pub data Call : Type 0 where
    intake : IntakeInput → Actor → CommandContext → Surroundings D → Call
    confirm : Text → Actor → CommandContext → Surroundings D → Call
    reject : Text → Option Text → Actor → CommandContext → Surroundings D → Call
    refund : Text → RefundInput → Actor → CommandContext → Surroundings D → Call

  unfoldable pub answer : Call → Action (Db D) Payment
  unfolding intake_external_payment_fact confirm_external_payment_fact reject_external_payment_fact
      refund_payment
  answer (intake payload actor context around) =
      intake_external_payment_fact D digest payload actor context around
  answer (confirm id actor context around) =
      confirm_external_payment_fact D digest id actor context around
  answer (reject id reason actor context around) =
      reject_external_payment_fact D digest id reason actor context around
  answer (refund id payload actor context around) =
      refund_payment D digest id payload actor context around

  -- The database after a sequence of calls.
  unfoldable pub after : List Call → Db D → Db D
  unfolding answer
  after [] db = db
  after (c ∷ cs) db = after cs (answer c db).1
