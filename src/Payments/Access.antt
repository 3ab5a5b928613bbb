-- ===== src/Payments/Access.antt =====
-- apps/api/src/modules/read-side/payments: whose payments a caller may read, and the read that ends
-- every payment command.
use sanmarino_crm.Base.{
  Bool, true, false, ◌&&◌, not, Option, none, some, [], ◌∷◌, Text, text_eq, ◌==◌, any,
  if◌then◌else◌,
}
use sanmarino_crm.Records.{
  Payment, Actor, RoleCode, admin, seller, warehouse, logistics, finance, ceo, driver, marketing,
}
use sanmarino_crm.Errors.{forbidden_exception, access_denied, not_found_exception}
use sanmarino_crm.Action.{Result, ok, err, Action}
use sanmarino_crm.Database.{Database, Db}

-- `privileged_payment_read_roles.has(role)`
abbrev pub is_privileged_payment_read_role : RoleCode → Bool
is_privileged_payment_read_role admin = true
is_privileged_payment_read_role ceo = true
is_privileged_payment_read_role warehouse = true
is_privileged_payment_read_role logistics = true
is_privileged_payment_read_role finance = true
is_privileged_payment_read_role seller = false
is_privileged_payment_read_role driver = false
is_privileged_payment_read_role marketing = false

-- `undefined` is `none`: no restriction. The empty text is falsy: it restricts nothing.
abbrev scope_of : Option Text → Option Text
scope_of none = none
scope_of (some []) = none
scope_of (some (c ∷ t)) = some (c ∷ t)

abbrev is_foreign : Option Text → Text → Bool
is_foreign none user_id = false
is_foreign (some []) user_id = false
is_foreign (some (c ∷ t)) user_id = not ((c ∷ t) == user_id)

unfoldable pub resolve_payment_read_scope : Actor → Option Text → Result (Option Text)
resolve_payment_read_scope actor requested =
    if any is_privileged_payment_read_role actor.role_codes
    then ok (scope_of requested)
    else if is_foreign requested actor.user_id
    then err (forbidden_exception access_denied)
    else ok (some actor.user_id)

module _ (D : Database) where
  -- `order: { deal: { responsibleUserId } }` in a `where`, for the order of a payment
  unfoldable pub order_is_of : Text → Text → Db D → Bool
  order_is_of user_id order_id db = elim (D.orders.find_first (λ o. o.id == order_id) db.orders) [
    | none ↦ false
    | some order ↦ order.responsible_user_id == user_id
  ]

  abbrev pub in_scope : Option Text → Payment → Db D → Bool
  in_scope none p db = true
  in_scope (some []) p db = true
  in_scope (some (c ∷ t)) p db = order_is_of (c ∷ t) p.order_id db

  -- `PrismaPaymentsPaymentReadRepository.getById`, `includeDeleted` false
  unfoldable pub get_by_id : Text → Option Text → Db D → Option Payment
  unfolding order_is_of
  get_by_id payment_id scope db =
      elim (D.payments.find_first (λ p. p.id == payment_id && in_scope scope p db) db.payments) [
        | none ↦ none
        | some payment ↦ if payment.is_deleted then none else some payment
      ]

  unfoldable pub get_payment_or_throw : Text → Actor → Action (Db D) Payment
  unfolding resolve_payment_read_scope get_by_id
  get_payment_or_throw payment_id actor db = elim (resolve_payment_read_scope actor none) [
    | err e ↦ (err e, db)
    | ok scope ↦ elim (get_by_id payment_id scope db) [
      | none ↦ (err not_found_exception, db)
      | some payment ↦ (ok payment, db)
    ]
  ]
