-- ===== src/Supply/Requests.antt =====
-- The changes of a supplier request's status in supply.service.ts.
pub mod Documented
use sanmarino_crm.Base.{ℕ, Option, none, some, List, [], ◌∷◌, Text, text_eq, ◌==◌, if◌then◌else◌}
use sanmarino_crm.Records.{Actor, RoleCode, seller, finance, ceo, warehouse, SupplierRequest}
use sanmarino_crm.Errors.{not_found_exception}
use sanmarino_crm.Action.{Action, ◌>>=◌, ◌>>◌, pure, gets, or_throw, modify}
use sanmarino_crm.Database.{Database, Db}
use sanmarino_crm.Status.{SupplierRequestStatus}
use sanmarino_crm.Transition.Matrices.{assert_supplier_request_status_transition}
use sanmarino_crm.Orders.Service.{refuse}
use sanmarino_crm.Supply.{has_role, assert_access}

abbrev pub supplier_request_confirm_role_codes : List RoleCode
supplier_request_confirm_role_codes = seller ∷ []

abbrev pub supplier_request_paid_role_codes : List RoleCode
supplier_request_paid_role_codes = finance ∷ ceo ∷ []

abbrev pub supplier_request_stocked_role_codes : List RoleCode
supplier_request_stocked_role_codes = warehouse ∷ []

abbrev pub supplier_request_file_role_codes : List RoleCode
supplier_request_file_role_codes = warehouse ∷ finance ∷ ceo ∷ []

abbrev pub apply_file_visibility_baseline : SupplierRequest → Actor → SupplierRequest
apply_file_visibility_baseline r actor =
    if has_role supplier_request_file_role_codes actor
    then r
    else record r { supplier_document_url = none }

abbrev pub confirmed_request : Text → Actor → SupplierRequest → SupplierRequest
confirmed_request expected_supply_date actor r = record r {
  status = SupplierRequestStatus.confirmed_by_supplier;
  expected_supply_date = expected_supply_date;
  confirmed_by = some actor.user_id;
}

abbrev pub paid_request : Actor → ℕ → SupplierRequest → SupplierRequest
paid_request actor now r = record r {
  status = SupplierRequestStatus.paid;
  paid_by = some actor.user_id;
  paid_at = some now;
}

abbrev pub stocked_request : Actor → ℕ → SupplierRequest → SupplierRequest
stocked_request actor now r = record r {
  status = SupplierRequestStatus.stocked;
  stocked_by = some actor.user_id;
  stocked_at = some now;
}

module _ (D : Database) where
  abbrev pub find_supplier_request : Text → Db D → Option SupplierRequest
  find_supplier_request id db =
      D.supplier_requests.find_first (λ r. r.id == id) db.supplier_requests

  unfoldable pub get_supplier_request_or_throw : Text → Action (Db D) SupplierRequest
  get_supplier_request_or_throw id = do
    found ← gets (find_supplier_request id)
    or_throw found not_found_exception

  abbrev pub update_supplier_request : Text → (SupplierRequest → SupplierRequest) → Db D → Db D
  update_supplier_request id change db = record db {
    supplier_requests = D.supplier_requests.update id change db.supplier_requests;
  }

  -- What the three commands have in common after their role guard.
  unfoldable pub advance_supplier_request :
      Text
      → SupplierRequestStatus
      → (SupplierRequest → SupplierRequest)
      → Actor
      → Action (Db D) SupplierRequest
  unfolding get_supplier_request_or_throw refuse assert_supplier_request_status_transition
  advance_supplier_request id target change actor = do
    current ← get_supplier_request_or_throw id
    refuse (assert_supplier_request_status_transition current.status target)
    modify (update_supplier_request id change)
    pure (apply_file_visibility_baseline (change current) actor)

  unfoldable pub confirm_supplier_request_by_supplier :
      Text → Text → Actor → Action (Db D) SupplierRequest
  unfolding advance_supplier_request
  confirm_supplier_request_by_supplier id expected_supply_date actor =
      assert_access supplier_request_confirm_role_codes actor
      >> advance_supplier_request id SupplierRequestStatus.confirmed_by_supplier
          (confirmed_request expected_supply_date actor) actor

  unfoldable pub mark_supplier_request_paid : Text → Actor → ℕ → Action (Db D) SupplierRequest
  unfolding advance_supplier_request
  mark_supplier_request_paid id actor now =
      assert_access supplier_request_paid_role_codes actor
      >> advance_supplier_request id SupplierRequestStatus.paid (paid_request actor now) actor

  unfoldable pub mark_supplier_request_stocked : Text → Actor → ℕ → Action (Db D) SupplierRequest
  unfolding advance_supplier_request
  mark_supplier_request_stocked id actor now =
      assert_access supplier_request_stocked_role_codes actor
      >> advance_supplier_request id SupplierRequestStatus.stocked (stocked_request actor now) actor
