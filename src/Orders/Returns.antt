-- ===== src/Orders/Returns.antt =====
-- apps/api/src/modules/orders/return-requests.service.ts: the payload of a return request and the
-- checks on quantities. A quantity is a number of millionths, an amount one of hundredths.
pub mod Frame
pub mod Goods
pub mod Create
pub mod Confirm
pub mod Process
pub mod Close
pub mod Moved
pub mod Laws
pub mod Anchor
pub mod Confirmed
pub mod Closed
pub mod Created
use sanmarino_crm.Base.{
  ℕ, ◌+◌, ◌*◌, ◌-◌, Bool, true, false, ◌&&◌, Option, none, some, List, [], ◌∷◌, map, Text, text,
  text_eq, ◌==◌, ltb, leb, contains, get, set, if◌then◌else◌,
}
use sanmarino_crm.Errors.{
  Exception, bad_request_exception, conflict_exception, validation_error, source_of_truth_violation,
}
use sanmarino_crm.Action.{Result, ok, err}
use sanmarino_crm.Records.{
  FulfillmentItem, ReturnRequestItemResolution, return_to_quarantine, writeoff, refund_only,
}
use sanmarino_crm.Orders.Shipment.{QtyMap, or_zero}
use sanmarino_crm.Orders.Fulfillments.{is_empty}
use sanmarino_crm.Payments.Normalize.{trim, scan_amount, scan_digits, to_lower_case, is_digit}

pub record ReturnRequestItemInput : Type 0 where
  pub order_item_id : Text
  pub quantity : Text
  pub resolution : Option Text

pub record CreateReturnRequestInput : Type 0 where
  pub order_id : Text
  pub reason : Text
  pub requested_refund_amount : Option Text
  pub items : List ReturnRequestItemInput

-- An item that has passed `normalize_return_request_items`.
pub record ReturnItem : Type 0 where
  pub order_item_id : Text
  pub quantity : ℕ
  pub resolution : ReturnRequestItemResolution

unfoldable pub normalize_reason : Text → Result Text
unfolding trim
normalize_reason reason =
    if is_empty (trim reason)
    then err (bad_request_exception validation_error)
    else ok (trim reason)

unfoldable pub normalize_optional_amount : Option Text → Result (Option ℕ)
unfolding trim scan_amount
normalize_optional_amount none = ok none
normalize_optional_amount (some value) =
    if is_empty (trim value) then ok none else elim (scan_amount (trim value)) [
      | none ↦ err (bad_request_exception validation_error)
      | some amount ↦ ok (some amount)
    ]

abbrev is_point : ℕ → Bool
is_point c = leb b'.' c && leb c b'.'

abbrev digit : ℕ → ℕ
digit c = c - b'0'

-- `(\.\d{1,3})?$`, in thousandths
unfoldable pub scan_thousandths : Text → Option ℕ
scan_thousandths [] = some 0
scan_thousandths (p ∷ []) = none
scan_thousandths (p ∷ a ∷ []) = if is_point p && is_digit a then some (100 * digit a) else none
scan_thousandths (p ∷ a ∷ b ∷ []) =
    if is_point p && is_digit a && is_digit b then some (100 * digit a + 10 * digit b) else none
scan_thousandths (p ∷ a ∷ b ∷ c ∷ []) =
    if is_point p && is_digit a && is_digit b && is_digit c
    then some (100 * digit a + 10 * digit b + digit c)
    else none
scan_thousandths (p ∷ a ∷ b ∷ c ∷ d ∷ t) = none

-- The value in thousandths of what `/^\d+(\.\d{1,3})?$/` matches.
unfoldable pub scan_quantity : Text → Option ℕ
unfolding scan_digits scan_thousandths
scan_quantity [] = none
scan_quantity (c ∷ t) =
    let (n, rest) = scan_digits (digit c) t in
    if is_digit c
    then elim (scan_thousandths rest) [ none ↦ none | some f ↦ some (1000 * n + f) ]
    else none

-- `quantityValue <= 0` is refused; the value is turned to millionths.
unfoldable pub normalize_quantity : Text → Option ℕ
unfolding trim scan_quantity
normalize_quantity raw = elim (scan_quantity (trim raw)) [
  | none ↦ none
  | some value ↦ if ltb 0 value then some (1000 * value) else none
]

unfoldable pub normalize_resolution : Option Text → Option ReturnRequestItemResolution
unfolding trim to_lower_case
normalize_resolution none = some return_to_quarantine
normalize_resolution (some []) = some return_to_quarantine
normalize_resolution (some (c ∷ t)) =
    let normalized = to_lower_case (trim (c ∷ t)) in
    if normalized == text "return_to_quarantine"
    then some return_to_quarantine
    else if normalized == text "writeoff"
    then some writeoff
    else if normalized == text "refund_only"
    then some refund_only
    else none

-- The item, if its quantity and its resolution are good.
abbrev return_item : Text → Option ℕ → Option ReturnRequestItemResolution → Option ReturnItem
return_item id none r = none
return_item id (some q) none = none
return_item id (some q) (some r) =
    some (record { order_item_id = id; quantity = q; resolution = r })

abbrev add_item : Option ReturnItem → Result (List ReturnItem) → Result (List ReturnItem)
add_item none rest = err (bad_request_exception validation_error)
add_item (some i) (err e) = err e
add_item (some i) (ok is) = ok (i ∷ is)

-- The `map` of `normalize_return_request_items`, with the identifiers seen so far.
unfoldable pub normalize_return_items_from :
    List Text → List ReturnRequestItemInput → Result (List ReturnItem)
unfolding trim normalize_quantity normalize_resolution
normalize_return_items_from seen [] = ok []
normalize_return_items_from seen (item ∷ items) =
    let id = trim item.order_item_id in
    let rest = normalize_return_items_from (id ∷ seen) items in
    if is_empty id
    then err (bad_request_exception validation_error)
    else if contains seen id
    then err (bad_request_exception validation_error)
    else add_item
        (return_item id (normalize_quantity item.quantity) (normalize_resolution item.resolution))
        rest

abbrev pub normalize_return_request_items : List ReturnRequestItemInput → Result (List ReturnItem)
normalize_return_request_items [] = err (bad_request_exception validation_error)
normalize_return_request_items (item ∷ items) = normalize_return_items_from [] (item ∷ items)

-- `qtyByOrderItem`
unfoldable pub add_fulfilled : QtyMap → List FulfillmentItem → QtyMap
unfolding get set
add_fulfilled m [] = m
add_fulfilled m (item ∷ items) =
    add_fulfilled (set item.order_item_id (or_zero (get item.order_item_id m) + item.qty) m) items

-- `0.0005`, in millionths
abbrev pub return_tolerance : ℕ
return_tolerance = 500

-- An item of a return, with the quantity that it gives back.
pub record ReturnedQty : Type 0 where
  pub order_item_id : Text
  pub quantity : ℕ

-- `assert_return_items_do_not_exceed_fulfilled_qty`: `some` is what it throws.
unfoldable pub check_fulfilled : QtyMap → List ReturnedQty → Option Exception
unfolding get
check_fulfilled m [] = none
check_fulfilled m (item ∷ items) =
    let rest = check_fulfilled m items in
    if leb item.quantity (or_zero (get item.order_item_id m) + return_tolerance)
    then rest
    else some (conflict_exception source_of_truth_violation)
