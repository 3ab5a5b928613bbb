-- ===== src/Orders/Returns/Laws.antt =====
-- What the commands of return-requests.service.ts have checked and written when they return.
use sanmarino_crm.Base.{
  ℕ, ◌≡◌, refl, ◌∙◌, sym, ap, true, Option, none, some, List, map, Text, text_eq, arith,
}
use mathlib.Core.Path.{subst}
use sanmarino_crm.Records.{Actor, ReturnAction, AuditPayload, OutboxEvent, ResponseBody}
use sanmarino_crm.Action.{ok, ◌>>◌, pure}
use sanmarino_crm.Action.Ensures.{
  Ensures, Ensures-pure, Ensures-bind, Ensures-gets, Ensures-modify, Ensures-from_result,
  Ensures_mono, Ensures-or_throw_end,
}
use sanmarino_crm.Database.{Database, Db}
use sanmarino_crm.Table.Insert.{Ensures-create_in}
use sanmarino_crm.Orders.Read.{resolve_order_read_scope}
use sanmarino_crm.Orders.Steps.{refuse-none}
use sanmarino_crm.Orders.Returns.Frame.{
  find_return, find_return_request_for_command, return_items, update_return, create_return_audit,
}
use sanmarino_crm.Orders.Returns.Goods.{GoodsItem, goods_item, goods_are_complete}
use sanmarino_crm.Orders.Returns.Moved.{move_items-Moved, goods_are_complete_if}
use sanmarino_crm.Orders.Returns.Process.{process_return_transaction, processed_return}
use sanmarino_crm.Payments.Digest.{HashInput}
use sanmarino_crm.Payments.Idempotency.{CommandContext}
use sanmarino_crm.Payments.Writes.{create_outbox_record, complete_record}

module _ (D : Database) where
  pub find_return_request_for_command-found :
      (id : Text) (actor : Actor) (db : Db D)
      → Ensures db (find_return_request_for_command D id actor) (λ r t.
        (t ≡ db)
        × (scope : Option Text) × (resolve_order_read_scope actor none ≡ ok scope)
        × (find_return D id scope db ≡ some r))
  unfolding find_return_request_for_command
  find_return_request_for_command-found id actor db =
      Ensures-from_result _ _
        λ scope e. Ensures-gets _ _ (Ensures-or_throw_end _ _ _ λ r found. (refl, scope, e, found))

  -- The stores that the last writes of a command leave.
  abbrev pub SameRows : Db D → Db D → Type 0
  SameRows db t =
      (t.inventory_movements ≡ db.inventory_movements)
      × (t.return_request_items ≡ db.return_request_items)
      × (t.order_items ≡ db.order_items)
      × (t.return_requests ≡ db.return_requests)

  create_return_audit-SameRows :
      (digest : HashInput → Text) (action : ReturnAction) (at : ℕ) (id : Text) (actor : Actor)
      (context : CommandContext) (payload : AuditPayload) (db : Db D)
      → Ensures db
          (create_return_audit D digest action at id actor context payload)
          (λ _ t. SameRows db t)
  unfolding create_return_audit
  create_return_audit-SameRows digest action at id actor context payload db = record {
    at =
        (Ensures-create_in D.audit_log (λ x. x.audit_log) (λ t x. record x { audit_log = t }) _ db
          (λ _ t. SameRows db t) (λ t e. (refl, refl, refl, refl))).at;
  }

  create_outbox_record-SameRows :
      (e : OutboxEvent) (db : Db D) → Ensures db (create_outbox_record D e) (λ _ t. SameRows db t)
  unfolding create_outbox_record
  create_outbox_record-SameRows e db = record {
    at =
        (Ensures-create_in D.outbox_records (λ x. x.outbox_records)
          (λ t x. record x { outbox_records = t }) _ db (λ _ t. SameRows db t)
          (λ t e. (refl, refl, refl, refl))).at;
  }

  complete_record-SameRows :
      (id : Text) (body : ResponseBody) (db : Db D)
      → Ensures db (complete_record D id body) (λ _ t. SameRows db t)
  unfolding complete_record
  complete_record-SameRows id body db = record { at = (refl, refl, refl, refl) }

  SameRows-trans : (a b c : Db D) → SameRows a b → SameRows b c → SameRows a c
  SameRows-trans a b c (p, q, r, s) (p', q', r', s') = (p' ∙ p, q' ∙ q, r' ∙ r, s' ∙ s)

  -- The audit record, the outbox record and the completion that end each command.
  pub ending :
      (digest : HashInput → Text) (action : ReturnAction) (at : ℕ) (id : Text) (actor : Actor)
      (context : CommandContext) (payload : AuditPayload) (event : OutboxEvent) (record_id : Text)
      (body : ResponseBody) (db : Db D)
      → Ensures db
          (create_return_audit D digest action at id actor context payload
            >> (create_outbox_record D event >> (complete_record D record_id body >> pure id)))
          (λ answer t. (answer ≡ id) × SameRows db t)
  ending digest action at id actor context payload event record_id body db =
      Ensures-bind (create_return_audit-SameRows digest action at id actor context payload db)
        λ _ db1 s1. Ensures-bind (create_outbox_record-SameRows event db1) λ _ db2 s2.
          Ensures-bind (complete_record-SameRows record_id body db2) λ _ t s3.
            Ensures-pure id (refl, SameRows-trans db db2 t (SameRows-trans db db1 db2 s1 s2) s3)

  -- The goods of a return, as the state holds them.
  abbrev pub goods_of : Text → Db D → List GoodsItem
  goods_of id db = map (goods_item D db) (return_items D id db)

  abbrev pub GoodsAreComplete : Text → Db D → Type 0
  GoodsAreComplete id db = goods_are_complete D id (goods_of id db) db ≡ true

  same-GoodsAreComplete :
      (id : Text) (db moved t : Db D)
      → t.inventory_movements ≡ moved.inventory_movements
      → t.return_request_items ≡ db.return_request_items
      → t.order_items ≡ db.order_items
      → goods_are_complete D id (goods_of id db) moved ≡ true
      → GoodsAreComplete id t
  unfolding goods_are_complete
  same-GoodsAreComplete id db moved t a b c h = rw (a, b, c) h

  -- When the transaction that processes a return request returns, the return passes the check of its
  -- goods that closing it makes: for each product and kind of movement the movements of the return
  -- reach what its items need.
  pub process_return_transaction-GoodsAreComplete :
      (digest : HashInput → Text) (id : Text) (actor : Actor) (context : CommandContext) (now : ℕ)
      (record_id : Text) (db : Db D)
      → Ensures db
          (process_return_transaction D digest id actor context now record_id)
          GoodsAreComplete
  unfolding process_return_transaction
  process_return_transaction-GoodsAreComplete digest id actor context now record_id db =
      Ensures-bind (find_return_request_for_command-found id actor db)
        λ r db0 (same, scope, in_scope, found). Ensures-gets _ _ (
          Ensures-bind (refuse-none _ db0) λ _ db1 (same1, allowed).
            Ensures-bind (move_items-Moved D r actor now (goods_of r.id db0) db1)
              λ n db2 (items, products, moved). Ensures-modify _ _ (
                Ensures_mono
                  (ending digest ReturnAction.process now r.id actor context _ _ record_id _
                    (update_return D r.id (processed_return now) db2))
                  λ answer t (same_id, (a, b, c, d)).
                    subst (λ x. GoodsAreComplete x t) (sym same_id)
                      (same-GoodsAreComplete r.id db0 db2 t a
                        (b ∙ (items ∙ ap (λ x. x.return_request_items) same1))
                        (c ∙ (products ∙ ap (λ x. x.order_items) same1))
                        (goods_are_complete_if D r.id (goods_of r.id db0) db2
                          (λ k. omega (arith, moved k))))))
