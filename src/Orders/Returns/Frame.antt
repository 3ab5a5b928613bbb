-- ===== src/Orders/Returns/Frame.antt =====
-- What the commands of return-requests.service.ts share: the frame with the idempotency record, the
-- reads of a return request, the outbox and audit records.
use sanmarino_crm.Base.{
  ℕ, ◌&&◌, not, Option, none, some, List, ◌++◌, Text, text, text_eq, ◌==◌, if◌then◌else◌,
}
use sanmarino_crm.Records.{
  ReturnRequest, ReturnRequestItem, Actor, AuditLogRecord, AuditPayload, LoggedAction, ReturnAction,
  create, confirm, process, close, IdempotencyRecord, IdempotencyStatus, ResponseBody,
  payment_reference, refund_reference, fulfillment_reference, return_request_reference, failure,
}
use sanmarino_crm.Errors.{
  Exception, not_found_exception, conflict_exception, bad_request_exception, forbidden_exception,
  unique_constraint_error, other_error, source_of_truth_violation,
}
use sanmarino_crm.Action.{ok, err, Action, ◌>>=◌, gets, or_throw, from_result, transaction}
use sanmarino_crm.Database.{Database, Db}
use sanmarino_crm.Table.Insert.{create_in}
use sanmarino_crm.Orders.Read.{resolve_order_read_scope}
use sanmarino_crm.Orders.Fulfillments.{scoped}
use sanmarino_crm.Payments.Digest.{HashInput, return_event, take}
use sanmarino_crm.Payments.Idempotency.{
  CommandContext, Surroundings, acquire_idempotency, update_record,
}
use sanmarino_crm.Payments.Normalize.{trim, non_empty}

-- `resolve_error_status_code` of this service, which knows the forbidden exception
unfoldable pub return_error_status_code : Exception → ℕ
return_error_status_code not_found_exception = 404
return_error_status_code (forbidden_exception c) = 403
return_error_status_code (conflict_exception c) = 409
return_error_status_code (bad_request_exception c) = 422
return_error_status_code unique_constraint_error = 500
return_error_status_code other_error = 500

-- `resolve_return_request_id_from_response_body`
unfoldable pub resolve_return_request_id_from_response_body : Option ResponseBody → Option Text
unfolding trim
resolve_return_request_id_from_response_body none = none
resolve_return_request_id_from_response_body (some (return_request_reference r)) =
    non_empty (trim r)
resolve_return_request_id_from_response_body (some (payment_reference p)) = none
resolve_return_request_id_from_response_body (some (refund_reference p r)) = none
resolve_return_request_id_from_response_body (some (fulfillment_reference f)) = none
resolve_return_request_id_from_response_body (some failure) = none

abbrev or_fallback : Option Text → Option Text → Option Text
or_fallback (some a) _ = some a
or_fallback none b = b

abbrev action_text : ReturnAction → Text
action_text create = text "create"
action_text confirm = text "confirm"
action_text process = text "process"
action_text close = text "close"

unfoldable pub build_return_request_audit_event_id :
    (HashInput → Text) → ReturnAction → Text → Text → Text
unfolding take
build_return_request_audit_event_id digest action id key =
    text "return_request_"
    ++ action_text action
    ++ text "_"
    ++ take 40 (digest (return_event action id key))

-- The status of the record of a command that has thrown.
abbrev pub fail_return : Exception → IdempotencyRecord → IdempotencyRecord
fail_return e r = record r {
  status = IdempotencyStatus.failed;
  response_status_code = some (return_error_status_code e);
  response_body = some failure;
  locked_until = none;
}

module _ (D : Database) where
  -- `mark_idempotency_failed` in the `catch`
  abbrev pub marking_return_failed : {A : Type 0} → Text → Action (Db D) A → Action (Db D) A
  marking_return_failed record_id m db =
      let (r, db') = m db in
      elim r [ ok a ↦ (ok a, db') | err e ↦ (err e, update_record D record_id (fail_return e) db') ]

  abbrev pub find_return : Text → Option Text → Db D → Option ReturnRequest
  find_return id scope db =
      D.return_requests.find_first
        (λ r. r.id == id && not r.is_deleted && scoped D scope r.order_id db) db.return_requests

  -- `items: { orderBy: { createdAt: "asc" } }`
  abbrev pub return_items : Text → Db D → List ReturnRequestItem
  return_items id db =
      D.return_request_items.find_many_by (λ i. i.return_request_id == id) (λ i. i.created_at)
        db.return_request_items

  -- `find_return_request_for_command` without its items, which the commands read by `return_items`
  unfoldable pub find_return_request_for_command : Text → Actor → Action (Db D) ReturnRequest
  unfolding resolve_order_read_scope
  find_return_request_for_command id actor = do
    scope ← from_result (resolve_order_read_scope actor none)
    found ← gets (find_return id scope)
    or_throw found not_found_exception

  -- `get_return_request_or_throw`
  unfoldable pub get_return_request_or_throw :
      Text → Actor → Action (Db D) (ReturnRequest × List ReturnRequestItem)
  unfolding find_return_request_for_command
  get_return_request_or_throw id actor = do
    return_request ← find_return_request_for_command id actor
    gets (λ (db : Db D). (return_request, return_items return_request.id db))

  -- `resolve_replayed_return_request`
  unfoldable pub resolve_replayed_return_request :
      Option ResponseBody
      → Actor
      → Option Text
      → Action (Db D) (ReturnRequest × List ReturnRequestItem)
  unfolding resolve_return_request_id_from_response_body get_return_request_or_throw
  resolve_replayed_return_request body actor fallback db =
      elim (or_fallback (resolve_return_request_id_from_response_body body) fallback) [
        | none ↦ (err (conflict_exception source_of_truth_violation), db)
        | some id ↦ get_return_request_or_throw id actor db
      ]

  abbrev return_audit_record :
      (HashInput → Text)
      → ReturnAction
      → ℕ
      → Text
      → Actor
      → CommandContext
      → AuditPayload
      → Db D
      → AuditLogRecord
  return_audit_record digest action at id actor context payload db = record {
    id = D.audit_log.next_id db.audit_log;
    event_id = build_return_request_audit_event_id digest action id context.idempotency_key;
    occurred_at = at;
    action = LoggedAction.return_action action;
    entity_id = id;
    actor_user_id = actor.user_id;
    request_id = context.request_id;
    correlation_id = context.correlation_id;
    payload = payload;
  }

  unfoldable pub create_return_audit :
      (HashInput → Text)
      → ReturnAction
      → ℕ
      → Text
      → Actor
      → CommandContext
      → AuditPayload
      → Action (Db D) (Unit {0})
  unfolding create_in build_return_request_audit_event_id
  create_return_audit digest action at id actor context payload db =
      create_in D.audit_log (λ (x : Db D). x.audit_log) (λ t x. record x { audit_log = t })
        (return_audit_record digest action at id actor context payload db) db

  abbrev pub update_return : Text → (ReturnRequest → ReturnRequest) → Db D → Db D
  update_return id f db = record db {
    return_requests = D.return_requests.update id f db.return_requests;
  }

  -- The frame of the four commands. The last read is not awaited in the `try`, so its failure is not
  -- caught there.
  unfoldable pub run_return_command :
      Surroundings D
      → Text
      → Text
      → Text
      → Actor
      → Option Text
      → (Text → Action (Db D) Text)
      → Action (Db D) (ReturnRequest × List ReturnRequestItem)
  unfolding acquire_idempotency resolve_replayed_return_request get_return_request_or_throw
  run_return_command around scope key request_hash actor fallback body = do
    idempotency ← acquire_idempotency D around scope key request_hash
    if idempotency.replayed
        then resolve_replayed_return_request idempotency.response_body actor fallback
        else (marking_return_failed idempotency.record_id (transaction (body idempotency.record_id))
            >>= λ id. get_return_request_or_throw id actor)
