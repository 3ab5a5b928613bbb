-- ===== src/Orders/Read.antt =====
-- apps/api/src/modules/orders/orders.service.ts: whose orders a caller may read, the read that starts
-- a command and the read that ends it (getById of read-side/orders/order.read.repository.ts).
use sanmarino_crm.Base.{
  Bool, true, false, ◌&&◌, not, Option, none, some, [], ◌∷◌, Text, text_eq, ◌==◌, any,
  if◌then◌else◌,
}
use sanmarino_crm.Records.{
  Order, Actor, RoleCode, admin, seller, warehouse, logistics, finance, ceo, driver, marketing,
}
use sanmarino_crm.Errors.{forbidden_exception, access_denied, not_found_exception}
use sanmarino_crm.Action.{Result, ok, err, Action, ◌>>=◌, from_result, gets, or_throw}
use sanmarino_crm.Database.{Database, Db}

-- `privileged_order_read_roles.has(role)`
abbrev pub is_privileged_order_read_role : RoleCode → Bool
is_privileged_order_read_role admin = true
is_privileged_order_read_role ceo = true
is_privileged_order_read_role warehouse = true
is_privileged_order_read_role logistics = true
is_privileged_order_read_role finance = true
is_privileged_order_read_role seller = false
is_privileged_order_read_role driver = false
is_privileged_order_read_role marketing = false

-- No user and the empty text, which is falsy, restrict nothing.
abbrev pub restriction : Option Text → Option Text
restriction none = none
restriction (some []) = none
restriction (some (c ∷ t)) = some (c ∷ t)

abbrev pub is_other : Option Text → Text → Bool
is_other none user_id = false
is_other (some u) user_id = not (u == user_id)

unfoldable pub resolve_order_read_scope : Actor → Option Text → Result (Option Text)
resolve_order_read_scope actor requested =
    if any is_privileged_order_read_role actor.role_codes
    then ok (restriction requested)
    else if is_other (restriction requested) actor.user_id
    then err (forbidden_exception access_denied)
    else ok (some actor.user_id)

-- `scope?.responsibleUserId` as a clause of a `where`
abbrev pub owned_by : Option Text → Order → Bool
owned_by none o = true
owned_by (some u) o = o.responsible_user_id == u

module _ (D : Database) where
  -- `find_order_for_command`
  unfoldable pub find_order_for_command : Text → Option Text → Action (Db D) Order
  find_order_for_command order_id scope = do
    found ← gets (λ (db : Db D).
        D.orders.find_first
          (λ o. o.id == order_id && not o.is_deleted && owned_by (restriction scope) o) db.orders)
    or_throw found not_found_exception

  -- `getById`, `includeDeleted` false
  unfoldable pub get_order_by_id : Text → Option Text → Db D → Option Order
  get_order_by_id order_id scope db =
      elim (D.orders.find_first (λ o. o.id == order_id && owned_by (restriction scope) o)
        db.orders) [ none ↦ none | some order ↦ if order.is_deleted then none else some order ]

  -- `getOrder`
  unfoldable pub get_order : Text → Actor → Action (Db D) Order
  unfolding get_order_by_id resolve_order_read_scope
  get_order order_id actor = do
    scope ← from_result (resolve_order_read_scope actor none)
    found ← gets (get_order_by_id order_id scope)
    or_throw found not_found_exception
