-- ===== src/Tests/Returns.antt =====
-- The commands of return-requests.service.ts at a concrete return.
use sanmarino_crm.Base.{
  suc, ◌≡◌, refl, Bool, none, List, [], ◌∷◌, text, text_eq, first, select, total, change, any, map,
}
use sanmarino_crm.Records.{
  ReturnRequest, ReturnRequestItem, return_to_quarantine, return_request_item_resolution_eq,
}
use sanmarino_crm.Action.{ok, ◌>>=◌}
use sanmarino_crm.Action.Ensures.{Ensures}
use sanmarino_crm.Database.{Db, memory_database}
use sanmarino_crm.Status.{
  ReturnRequestStatus, inventory_movement_type_eq, reservation_status_eq, fulfillment_status_eq,
  inventory_bucket_status_eq, order_status_eq, return_request_status_eq,
}
use sanmarino_crm.Table.Memory.{sort, add, size}
use sanmarino_crm.Transition.Matrices.{assert_return_request_status_transition}
use sanmarino_crm.Orders.Read.{resolve_order_read_scope, find_order_for_command}
use sanmarino_crm.Orders.Returns.{
  ReturnItem, normalize_return_request_items, normalize_return_items_from,
}
use sanmarino_crm.Orders.Returns.Create.{create_return_transaction}
use sanmarino_crm.Orders.Returns.Created.{Created, create_return_transaction-Created}
use sanmarino_crm.Orders.Returns.Confirm.{confirm_return_transaction}
use sanmarino_crm.Orders.Returns.Confirmed.{Confirmed, confirm_return_transaction-Confirmed}
use sanmarino_crm.Orders.Returns.Process.{process_return_transaction}
use sanmarino_crm.Orders.Returns.Close.{close_return_transaction}
use sanmarino_crm.Orders.Returns.Closed.{Closed, close_return_transaction-Closed}
use sanmarino_crm.Orders.Returns.Laws.{
  GoodsAreComplete, process_return_transaction-GoodsAreComplete,
}
use sanmarino_crm.Tests.Payments.{clerk, context, digest}
use sanmarino_crm.Tests.Fulfillments.{depot, done}

abbrev items : List ReturnItem
items =
    record { order_item_id = text "i1"; quantity = 1_500_000; resolution = return_to_quarantine }
    ∷ []

-- What a client sends for them.
normalized :
    normalize_return_request_items
      (record { order_item_id = text "i1 "; quantity = text "1.50"; resolution = none } ∷ [])
    ≡ ok items
unfolding normalize_return_items_from
normalized = refl

abbrev request : ReturnRequestStatus → ReturnRequest
request status = record {
  id = text "r1";
  order_id = text "o2";
  status = status;
  requested_by_user_id = text "u7";
  reason = text "broken";
  requested_refund_amount = none;
  realization_anchor_at = none;
  confirmed_at = none;
  requires_ceo_approval = Bool.false;
  ceo_approved_by = none;
  ceo_approved_at = none;
  processed_at = none;
  closed_at = none;
  is_deleted = Bool.false;
}

abbrev returned : ReturnRequestItem
returned = record {
  id = text "j1";
  return_request_id = text "r1";
  order_item_id = text "i1";
  qty = 1_500_000;
  resolution = return_to_quarantine;
  created_at = 3;
}

abbrev desk : ReturnRequestStatus → Db memory_database
desk status = record depot {
  fulfillments = done ∷ [];
  return_requests = request status ∷ [];
  return_request_items = returned ∷ [];
}

create_return_transaction-Created_example :
    Ensures
      (desk ReturnRequestStatus.created)
      (create_return_transaction memory_database digest
        (text "o2")
        (text "torn")
        none
        items
        clerk
        (context (text "k1"))
        700
        (text "c1"))
      (Created memory_database
        (text "o2")
        (text "torn")
        none
        items
        clerk
        (desk ReturnRequestStatus.created))
create_return_transaction-Created_example =
    create_return_transaction-Created memory_database digest (text "o2") (text "torn") none items
      clerk (context (text "k1")) 700 (text "c1") (desk ReturnRequestStatus.created)

confirm_return_transaction-Confirmed_example :
    Ensures
      (desk ReturnRequestStatus.created)
      (confirm_return_transaction memory_database digest
        (text "r1")
        clerk
        (context (text "k1"))
        700
        (text "c1"))
      (Confirmed memory_database (text "r1") clerk 700 (desk ReturnRequestStatus.created))
confirm_return_transaction-Confirmed_example =
    confirm_return_transaction-Confirmed memory_database digest (text "r1") clerk
      (context (text "k1")) 700 (text "c1") (desk ReturnRequestStatus.created)

process_return_transaction-GoodsAreComplete_example :
    Ensures
      (desk ReturnRequestStatus.confirmed)
      (process_return_transaction memory_database digest
        (text "r1")
        clerk
        (context (text "k1"))
        700
        (text "c1"))
      (GoodsAreComplete memory_database)
process_return_transaction-GoodsAreComplete_example =
    process_return_transaction-GoodsAreComplete memory_database digest (text "r1") clerk
      (context (text "k1")) 700 (text "c1") (desk ReturnRequestStatus.confirmed)

-- The return once it is processed, with its movement of stock.
abbrev processed : Db memory_database
processed =
    (process_return_transaction memory_database digest (text "r1") clerk (context (text "k1")) 700
      (text "c1") (desk ReturnRequestStatus.confirmed)).1

close_return_transaction-Closed_example :
    Ensures processed
      (close_return_transaction memory_database digest
        (text "r1")
        clerk
        (context (text "k2"))
        800
        (text "c1"))
      (Closed memory_database (text "r1") clerk 800 processed)
close_return_transaction-Closed_example =
    close_return_transaction-Closed memory_database digest (text "r1") clerk (context (text "k2"))
      800 (text "c1") processed

closes :
    (close_return_transaction memory_database digest
      (text "r1")
      clerk
      (context (text "k2"))
      800
      (text "c1")
      processed).0
    ≡ ok (text "r1")
unfolding process_return_transaction close_return_transaction ◌>>=◌ text_eq
    inventory_movement_type_eq reservation_status_eq return_request_item_resolution_eq select sort
    first add any change total assert_return_request_status_transition return_request_status_eq
    inventory_bucket_status_eq
closes = refl

-- The processing returns, and writes one movement.
processes :
    map
      (λ m. m.qty)
      (process_return_transaction memory_database digest
        (text "r1")
        clerk
        (context (text "k1"))
        700
        (text "c1")
        (desk ReturnRequestStatus.confirmed)).1.inventory_movements
    ≡ 1_500_000 ∷ []
unfolding process_return_transaction ◌>>=◌ text_eq inventory_movement_type_eq reservation_status_eq
    return_request_item_resolution_eq select sort first add any change
    assert_return_request_status_transition return_request_status_eq
processes = refl

confirms :
    (confirm_return_transaction memory_database digest
      (text "r1")
      clerk
      (context (text "k1"))
      700
      (text "c1")
      (desk ReturnRequestStatus.created)).0
    ≡ ok (text "r1")
unfolding confirm_return_transaction ◌>>=◌ text_eq fulfillment_status_eq select sort first add any
    change assert_return_request_status_transition return_request_status_eq
confirms = refl

creates :
    (create_return_transaction memory_database digest
      (text "o2")
      (text "torn")
      none
      items
      clerk
      (context (text "k1"))
      700
      (text "c1")
      (desk ReturnRequestStatus.created)).0
    ≡ ok (suc (size (text "r1")) ∷ [])
unfolding create_return_transaction ◌>>=◌ text_eq fulfillment_status_eq select sort first add any
    change resolve_order_read_scope find_order_for_command
creates = refl
