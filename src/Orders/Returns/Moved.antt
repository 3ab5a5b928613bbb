-- ===== src/Orders/Returns/Moved.antt =====
-- A processed return has moved its goods: what `processReturnRequest` writes is what
-- `assert_return_consequences_complete` asks for when the return is closed.
use sanmarino_crm.Base.{
  ℕ, ◌+◌, ◌≤◌, ◌≡◌, refl, ◌∙◌, Bool, true, false, ◌&&◌, not, Bool-cases, inl, inr, List, [], ◌∷◌,
  Text, text_eq, ◌==◌, ==-refl, if◌then◌else◌, get, set, get-set, select, total, total-select, All,
  arith,
}
use sanmarino_crm.Records.{
  Actor, ReturnRequest, InventoryMovement, ReturnRequestItemResolution,
  return_request_item_resolution_eq, return_to_quarantine, writeoff, refund_only,
}
use sanmarino_crm.Status.{inventory_movement_type_eq, inventory_bucket_status_eq}
use sanmarino_crm.Action.{◌>>=◌, ◌>>◌, pure}
use sanmarino_crm.Action.Ensures.{
  Ensures, Ensures-pure, Ensures-bind, Ensures-gets, Ensures-or_throw, Ensures_mono, Ensures-and,
}
use sanmarino_crm.Database.{Database, Db}
use sanmarino_crm.Table.Insert.{Ensures-create_in}
use sanmarino_crm.Orders.Shipment.{QtyMap, or_zero}
use sanmarino_crm.Orders.Returns.{return_tolerance}
use sanmarino_crm.Orders.Returns.Goods.{
  GoodsItem, is_goods, counts, movement_key, goods_key, add_movements, add_required, is_moved,
  are_goods_moved, is_movement_of, goods_are_complete,
}
use sanmarino_crm.Orders.Returns.Process.{return_movement, move_item, move_items}
use sanmarino_crm.Orders.Fulfillments.Ledger.{Added, create_movement-Added, movement_rows}
use sanmarino_crm.Orders.Fulfillments.Stock.{create_movement}

-- The quantity of the movements, and of the items, with a key.
abbrev pub moved_qty : Text → List InventoryMovement → ℕ
moved_qty k = total (λ m. counts m && movement_key m == k) (λ m. m.qty)

abbrev pub required_qty : Text → List GoodsItem → ℕ
required_qty k = total (λ i. goods_key i == k) (λ i. i.qty)

or_zero-add_movements :
    (k : Text) (m : QtyMap) (xs : List InventoryMovement)
    → or_zero (get k (add_movements m xs)) ≡ or_zero (get k m) + moved_qty k xs
unfolding add_movements total
or_zero-add_movements k m [] = omega arith
or_zero-add_movements k m (x ∷ xs) =
    let n = or_zero (get (movement_key x) m) + x.qty in
    ground (
      arith,
      or_zero-add_movements k (set (movement_key x) n m) xs,
      or_zero-add_movements k m xs,
      get-set k (movement_key x) n m,
    )

-- Every entry of a map is within a bound for its key.
abbrev IsBounded : (Text → ℕ) → QtyMap → Type 0
IsBounded bound = All (λ (k, n). n ≤ bound k)

set-IsBounded :
    (bound : Text → ℕ) (k : Text) (n : ℕ) (m : QtyMap)
    → n ≤ bound k
    → IsBounded bound m
    → IsBounded bound (set k n m)
unfolding set
set-IsBounded bound k n [] h b = (h, tt)
set-IsBounded bound k n ((j, a) ∷ m) h b = elim (Bool-cases (j == k)) [
  | inl t ↦ let same : j ≡ k = ground arith in rw (t, same) (h, b.1)
  | inr f ↦ rw f (b.0, set-IsBounded bound k n m h b.1)
]

add_required-IsBounded :
    (bound : Text → ℕ) (m : QtyMap) (items : List GoodsItem)
    → ((k : Text) → or_zero (get k m) + required_qty k items ≤ bound k)
    → IsBounded bound m
    → IsBounded bound (add_required m items)
unfolding add_required total
add_required-IsBounded bound m [] h b = b
add_required-IsBounded bound m (i ∷ is) h b =
    let k = goods_key i in
    let n = or_zero (get k m) + i.qty in
    let fits : n ≤ bound k = ground (arith, h k, ==-refl k) in
    add_required-IsBounded bound (set k n m) is (λ j. ground (arith, h j, get-set j k n m))
      (set-IsBounded bound k n m fits b)

IsBounded-is_moved :
    (movements m : QtyMap)
    → IsBounded (λ k. or_zero (get k movements) + return_tolerance) m
    → is_moved movements m ≡ true
unfolding is_moved
IsBounded-is_moved movements [] h = refl
IsBounded-is_moved movements ((k, n) ∷ m) h =
    ground (arith, h.0, IsBounded-is_moved movements m h.1)

-- Goods are moved when the movements reach what the items need, key by key.
are_goods_moved_if :
    (ms : List InventoryMovement) (items : List GoodsItem)
    → ((k : Text) → required_qty k (select is_goods items) ≤ moved_qty k ms)
    → are_goods_moved ms items ≡ true
unfolding are_goods_moved get
are_goods_moved_if ms items h =
    IsBounded-is_moved (add_movements [] ms) (add_required [] (select is_goods items)) (
      add_required-IsBounded (λ k. or_zero (get k (add_movements [] ms)) + return_tolerance) []
        (select is_goods items) (λ k. omega (arith, h k, or_zero-add_movements k [] ms)) tt)

module _ (D : Database) where
  -- The quantity that has been moved for a return under a key.
  abbrev pub moved_for : Text → Text → Db D → ℕ
  moved_for id k db =
      total (λ m. is_movement_of id m && (counts m && movement_key m == k)) (λ m. m.qty)
        (movement_rows D db)

  pub goods_are_complete_if :
      (id : Text) (items : List GoodsItem) (db : Db D)
      → ((k : Text) → required_qty k (select is_goods items) ≤ moved_for id k db)
      → goods_are_complete D id items db ≡ true
  unfolding goods_are_complete
  goods_are_complete_if id items db h =
      are_goods_moved_if
        (D.inventory_movements.find_many (is_movement_of id) db.inventory_movements) items
        λ k.
          let a = D.inventory_movements.find_many_lem (is_movement_of id) db.inventory_movements in
          let b =
            total-select (λ m. counts m && movement_key m == k) (is_movement_of id) (λ m. m.qty)
              (λ m. m.qty) (movement_rows D db) in
          rw a (omega (arith, h k, b))

  weigh :
      (r : ReturnRequest) (actor : Actor) (now : ℕ) (p w : Text) (qty : ℕ)
      (res : ReturnRequestItemResolution) (db : Db D) (k : Text)
      → not (res == refund_only) ≡ true
      → let item : GoodsItem = record { product_id = p; qty = qty; resolution = res } in
        let m = return_movement D r actor now item w db in
        (if is_movement_of r.id m && (counts m && movement_key m == k) then qty else 0)
        ≡ (if goods_key item == k then qty else 0)
  unfolding inventory_movement_type_eq inventory_bucket_status_eq return_request_item_resolution_eq
  weigh r actor now p w qty return_to_quarantine db k h = rw (==-refl r.id) refl
  weigh r actor now p w qty writeoff db k h = rw (==-refl r.id) refl
  weigh r actor now p w qty refund_only db k h = absurd (cc h)

  -- What a movement of an item adds: it is counted for the return, under the key of the item.
  counted :
      (r : ReturnRequest) (actor : Actor) (now : ℕ) (item : GoodsItem) (w : Text) (db db1 : Db D)
      (k : Text)
      → is_goods item ≡ true
      → Added D db (return_movement D r actor now item w db) db1
      → moved_for r.id k db1 ≡ (if goods_key item == k then item.qty else 0) + moved_for r.id k db
  unfolding total
  counted r actor now item w db db1 k goods (same, rows) =
      rw (rows, weigh r actor now item.product_id w item.qty item.resolution db k goods) refl

  -- The stores that the items are read from are left, and the items are moved.
  abbrev pub Moved : ReturnRequest → List GoodsItem → Db D → Db D → Type 0
  Moved r items db t =
      (t.return_request_items ≡ db.return_request_items)
      × (t.order_items ≡ db.order_items)
      × ((k : Text)
          → required_qty k (select is_goods items) + moved_for r.id k db ≤ moved_for r.id k t)

  -- The items and their products are read from stores that a movement leaves.
  abbrev pub Kept : Db D → Db D → Type 0
  Kept db t = (t.return_request_items ≡ db.return_request_items) × (t.order_items ≡ db.order_items)

  create_movement-Kept :
      (row : Db D → InventoryMovement) (db : Db D)
      → Ensures db (create_movement D row) (λ _ t. Kept db t)
  unfolding create_movement
  create_movement-Kept row db = record {
    at =
        (Ensures-create_in D.inventory_movements (λ x. x.inventory_movements)
          (λ t x. record x { inventory_movements = t }) (row db) db (λ _ t. Kept db t)
          (λ t e. (refl, refl))).at;
  }

  move_item-counted :
      (r : ReturnRequest) (actor : Actor) (now : ℕ) (item : GoodsItem) (db : Db D)
      → is_goods item ≡ true
      → Ensures db (move_item D r actor now item) (λ _ t.
        ((k : Text)
          → moved_for r.id k t
            ≡ (if goods_key item == k then item.qty else 0) + moved_for r.id k db)
        × Kept db t)
  unfolding move_item
  move_item-counted r actor now item db goods = Ensures-gets _ _ (
      Ensures-or_throw _ _ _ λ w e.
        Ensures_mono
          (Ensures-and (create_movement D (return_movement D r actor now item w)) _ _
            (create_movement-Added D (return_movement D r actor now item w) db)
            (create_movement-Kept (return_movement D r actor now item w) db))
          λ _ t (added, kept). (λ k. counted r actor now item w db t k goods added, kept))

  pub move_items-Moved :
      (r : ReturnRequest) (actor : Actor) (now : ℕ) (items : List GoodsItem) (db : Db D)
      → Ensures db (move_items D r actor now items) (λ _ t. Moved r items db t)
  unfolding move_items select total
  move_items-Moved r actor now [] db = Ensures-pure 0 (refl, refl, λ k. omega arith)
  move_items-Moved r actor now (item ∷ items) db =
      branch (is_goods item) refl (move_items-Moved r actor now items)
    where
      branch :
          (b : Bool)
          → is_goods item ≡ b
          → ((x : Db D) → Ensures x (move_items D r actor now items) (λ _ t. Moved r items x t))
          → Ensures db
              (if b
                then (move_item D r actor now item >> move_items D r actor now items >>= λ n.
                    pure (1 + n))
                else move_items D r actor now items)
              (λ _ t. Moved r (item ∷ items) db t)
      branch false e ih = Ensures_mono (ih db) λ _ t (a, b, h). (a, b, λ k. rw e (h k))
      branch true e ih =
          Ensures-bind
            (Ensures-bind (move_item-counted r actor now item db e) λ _ db1 (one, kept).
              Ensures_mono (ih db1)
                λ n t (a, b, h). (a ∙ kept.0, b ∙ kept.1, λ k. rw e (omega (arith, h k, one k))))
            λ n t h. Ensures-pure _ h
