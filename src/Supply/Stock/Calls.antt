-- ===== src/Supply/Stock/Calls.antt =====
-- Sequences of the commands of supply.service.ts that write movements of stock from reservations
-- and transfers.
use sanmarino_crm.Base.{ℕ, List, [], ◌∷◌, Text, All}
use sanmarino_crm.Records.{Actor}
use sanmarino_crm.Database.{Database, Db}
use sanmarino_crm.Supply.Reservations.{
  CreateReservations, create_reservations_for_order, release_reservation_internal,
}
use sanmarino_crm.Supply.Quarantine.{
  QuarantineMovement, transfer_to_quarantine, release_from_quarantine,
}
use sanmarino_crm.Supply.Stock.{Reserved}
use sanmarino_crm.Supply.Stock.Reserve.{create_reservations_for_order-Reserved}
use sanmarino_crm.Supply.Stock.Rows.{IsStorable}
use sanmarino_crm.Supply.Stock.Release.{release_reservation_internal-Reserved}
use sanmarino_crm.Supply.Stock.Transfer.{
  transfer_to_quarantine-Reserved, release_from_quarantine-Reserved,
}

pub data StockCall : Type 0 where
  reserve : CreateReservations → Actor → ℕ → ℕ → StockCall
  release : Text → ℕ → ℕ → StockCall
  to_quarantine from_quarantine : QuarantineMovement → Actor → ℕ → StockCall

-- No quantity that is reserved vanishes when it is stored.
abbrev pub IsStorableCall : StockCall → Type 0
IsStorableCall (reserve input actor now later) = All IsStorable input.items
IsStorableCall (release id now at) = Unit
IsStorableCall (to_quarantine input actor now) = Unit
IsStorableCall (from_quarantine input actor now) = Unit

module _ (D : Database) where
  -- The database after a call, whether it returns or throws.
  unfoldable pub run_stock_call : StockCall → Db D → Db D
  unfolding create_reservations_for_order release_reservation_internal transfer_to_quarantine
      release_from_quarantine
  run_stock_call (reserve input actor now later) db =
      (create_reservations_for_order D input actor now later db).1
  run_stock_call (release id now at) db = (release_reservation_internal D id now at db).1
  run_stock_call (to_quarantine input actor now) db =
      (transfer_to_quarantine D input actor now db).1
  run_stock_call (from_quarantine input actor now) db =
      (release_from_quarantine D input actor now db).1

  unfoldable pub after_stock_calls : List StockCall → Db D → Db D
  unfolding run_stock_call
  after_stock_calls [] db = db
  after_stock_calls (c ∷ cs) db = after_stock_calls cs (run_stock_call c db)

  run_stock_call-Reserved :
      (c : StockCall) (db : Db D)
      → IsStorableCall c
      → Reserved D db
      → Reserved D (run_stock_call c db)
  unfolding run_stock_call
  run_stock_call-Reserved (reserve input actor now later) db storable h =
      (create_reservations_for_order-Reserved D input actor now later db storable h).at
  run_stock_call-Reserved (release id now at) db _ h =
      (release_reservation_internal-Reserved D id now at db h).at
  run_stock_call-Reserved (to_quarantine input actor now) db _ h =
      (transfer_to_quarantine-Reserved D input actor now db h).at
  run_stock_call-Reserved (from_quarantine input actor now) db _ h =
      (release_from_quarantine-Reserved D input actor now db h).at

  -- Whatever reservations are made and released and whatever is moved to quarantine and back, by
  -- whom and when, and however each call ends: for each product and warehouse the reserved bucket
  -- keeps just the quantity of the active reservations. It is so at the start, with distinct
  -- identifiers, and each quantity reserved is at least 0.0005.
  pub after_stock_calls-Reserved :
      (cs : List StockCall) (db : Db D)
      → All IsStorableCall cs
      → Reserved D db
      → Reserved D (after_stock_calls cs db)
  unfolding after_stock_calls
  after_stock_calls-Reserved [] db _ h = h
  after_stock_calls-Reserved (c ∷ cs) db (storable, all) h =
      after_stock_calls-Reserved cs (run_stock_call c db) all
        (run_stock_call-Reserved c db storable h)
