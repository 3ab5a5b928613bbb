-- ===== src/Tests/Fulfillments.antt =====
-- The stock issue and the commands of fulfillments.service.ts at a concrete order with reservations.
use sanmarino_crm.Base.{
  ℕ, ◌+◌, ◌<◌, ◌≤◌, ◌≡◌, refl, none, some, List, [], ◌∷◌, Text, text, text_eq, total, length, first,
  select, change, any, arith, ◌==◌, map,
}
use sanmarino_crm.Records.{Fulfillment, Reservation}
use sanmarino_crm.Action.{ok, ◌>>=◌}
use sanmarino_crm.Action.Ensures.{Ensures}
use sanmarino_crm.Action.Leaves.{Leaves}
use sanmarino_crm.Database.{Db, memory_database}
use sanmarino_crm.Status.{
  OrderFulfillmentType, FulfillmentStatus, ReservationStatus, OrderStatus,
  inventory_movement_type_eq, reservation_status_eq, fulfillment_status_eq, order_status_eq,
}
use sanmarino_crm.Orders.Issue.{IssueItem, IssueLine, BucketEntry, issue_lines, walk}
use sanmarino_crm.Orders.Issue.Buckets.{issued, produced}
use sanmarino_crm.Orders.Issue.Buckets.{drain, walk-bucket}
use sanmarino_crm.Orders.Issue.Laws.{open_qty, demand, issued-le-remaining, produced-demand}
use sanmarino_crm.Orders.Issue.Enough.{issue_lines_enough}
use sanmarino_crm.Orders.Fulfillments.{CreateFulfillmentInput}
use sanmarino_crm.Orders.Fulfillments.Create.{create_fulfillment}
use sanmarino_crm.Orders.Fulfillments.Confirm.{confirm_execution}
use sanmarino_crm.Orders.Fulfillments.Stock.{create_inventory_issue_side_effects}
use sanmarino_crm.Orders.Fulfillments.Ledger.{Covered}
use sanmarino_crm.Orders.Fulfillments.Covered.{confirm_execution-Covered}
use sanmarino_crm.Orders.Fulfillments.Again.{issue_once}
use sanmarino_crm.Orders.Fulfillments.Created.{Answered, create_fulfillment-Answered}
use sanmarino_crm.Table.Memory.{sort, add}
use sanmarino_crm.Transition.Matrices.{assert_order_status_transition}
use sanmarino_crm.Tests.Payments.{start, clerk, context, around, digest}
use sanmarino_crm.Tests.Orders.{ready}

abbrev reservation : Text → ℕ → ℕ → Reservation
reservation id qty at = record {
  id = id;
  order_id = text "o2";
  product_id = text "p1";
  warehouse_id = text "w1";
  qty = qty;
  status = ReservationStatus.active;
  expires_at = 900;
  released_at = none;
  created_by = text "u1";
  created_at = at;
}

-- Two reservations of one product; one item wants more than the first holds.
abbrev two : List Reservation
two = reservation (text "s1") 2_000_000 1 ∷ reservation (text "s2") 3_000_000 2 ∷ []

abbrev wanted : List IssueItem
wanted = record { product_id = text "p1"; qty = 4_000_000 } ∷ []

abbrev line : Text → ℕ → IssueLine
line id qty = record {
  product_id = text "p1";
  warehouse_id = text "w1";
  reservation_id = id;
  qty = qty;
}

abbrev lines : List IssueLine
lines = line (text "s1") 2_000_000 ∷ line (text "s2") 2_000_000 ∷ []

issues : issue_lines two [] wanted ≡ ok lines
unfolding issue_lines text_eq
issues = refl

issued-le-remaining_example :
    issued (text "s1") lines ≤ total (λ r. r.id == text "s1") (open_qty []) two
issued-le-remaining_example = issued-le-remaining two [] wanted issues (text "s1")

produced-demand_example :
    (produced (text "p1") lines ≤ demand (text "p1") wanted)
    × (demand (text "p1") wanted ≤ produced (text "p1") lines + length wanted)
produced-demand_example = produced-demand two [] wanted issues (text "p1")

enough : (p : Text) → demand p wanted ≤ total (λ r. r.product_id == p) (open_qty []) two
unfolding total
enough p = ground arith

issue_lines_enough_example :
    (l : List IssueLine) × (issue_lines two [] wanted ≡ ok l)
    × ((p : Text) → produced p l ≡ demand p wanted)
issue_lines_enough_example = issue_lines_enough two [] wanted enough

abbrev entries : List BucketEntry
entries =
    record { id = text "s1"; warehouse_id = text "w1"; remaining_qty = 2 }
    ∷ record { id = text "s2"; warehouse_id = text "w1"; remaining_qty = 3 }
    ∷ []

walk-bucket_example : (walk (text "p1") 4 entries).bucket ≡ drain 4 entries 0
walk-bucket_example = walk-bucket (text "p1") 4 entries

abbrev pub done : Fulfillment
done = record {
  id = text "f1";
  order_id = text "o2";
  status = FulfillmentStatus.completed;
  fulfillment_type = OrderFulfillmentType.delivery;
  delivery_task_id = none;
  pickup_window_id = none;
  fulfilled_at = some 10;
  created_by = text "u1";
}

abbrev pub depot : Db memory_database
depot = record start {
  orders = ready ∷ [];
  order_items =
      record { id = text "i1"; order_id = text "o2"; product_id = text "p1"; qty = 4_000_000 } ∷ [];
  fulfillments =
      record {
        id = text "f1";
        order_id = text "o2";
        status = FulfillmentStatus.pending;
        fulfillment_type = OrderFulfillmentType.delivery;
        delivery_task_id = none;
        pickup_window_id = none;
        fulfilled_at = none;
        created_by = text "u1";
      }
      ∷ [];
  fulfillment_items =
      record {
        id = text "g1";
        fulfillment_id = text "f1";
        order_item_id = text "i1";
        qty = 4_000_000;
        created_at = 1;
      }
      ∷ [];
  reservations = two;
}

depot-Covered : Covered memory_database depot
unfolding total text_eq
depot-Covered = record {
  ids = ((ground arith, tt), (tt, tt));
  within = (omega arith, (omega arith, tt));
}

confirm_execution-Covered_example :
    Leaves depot
      (confirm_execution memory_database digest
        (around 500)
        (text "f1")
        clerk
        (context (text "k1")))
      (Covered memory_database)
confirm_execution-Covered_example =
    confirm_execution-Covered memory_database digest (around 500) (text "f1") clerk
      (context (text "k1")) depot depot-Covered

issue_once_example :
    Ensures depot
      (create_inventory_issue_side_effects memory_database (text "f1") (text "o2") (text "u1") 500)
      (λ n t.
        0 < n
        → (o u : Text) (later : ℕ)
        → create_inventory_issue_side_effects memory_database (text "f1") o u later t ≡ (ok 0, t))
issue_once_example = issue_once memory_database (text "f1") (text "o2") (text "u1") 500 depot

-- Two movements are written.
issues_two :
    (create_inventory_issue_side_effects memory_database
      (text "f1")
      (text "o2")
      (text "u1")
      500
      depot).0
    ≡ ok 2
unfolding create_inventory_issue_side_effects ◌>>=◌ issue_lines text_eq inventory_movement_type_eq
    reservation_status_eq select total sort first add any
issues_two = refl

-- The order is shipped in full.
ships :
    map
      (λ o. o.status)
      (confirm_execution memory_database digest
        (around 500)
        (text "f1")
        clerk
        (context (text "k1"))
        depot).1.orders
    ≡ OrderStatus.shipped ∷ []
unfolding confirm_execution ◌>>=◌ issue_lines text_eq inventory_movement_type_eq
    reservation_status_eq select total sort first add any change fulfillment_status_eq
    order_status_eq assert_order_status_transition
ships = refl

abbrev payload : CreateFulfillmentInput
payload = record {
  order_id = text "o2";
  fulfillment_type = none;
  delivery_task_id = none;
  pickup_window_id = none;
  items = record { order_item_id = text " i1"; qty = some 1_000_000 } ∷ [];
}

create_fulfillment-Answered_example :
    Ensures depot
      (create_fulfillment memory_database payload clerk 500)
      (λ _ t. Answered memory_database payload clerk depot t)
create_fulfillment-Answered_example =
    create_fulfillment-Answered memory_database payload clerk 500 depot
