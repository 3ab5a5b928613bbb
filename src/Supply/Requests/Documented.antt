-- ===== src/Supply/Requests/Documented.antt =====
-- The stamps of a supplier request: who has confirmed, paid and stocked it, and when.
use sanmarino_crm.Base.{
  ℕ, ◌≡◌, refl, sym, ◌∙◌, Option, none, some, List, [], ◌∷◌, Text, text_eq, ◌==◌, All,
  All-change_found, first, All-first, Distinct, change-Distinct, arith,
}
use sanmarino_crm.Records.{Actor, SupplierRequest}
use sanmarino_crm.Status.{SupplierRequestStatus, supplier_request_status_eq}
use sanmarino_crm.Transition.{assert_transition}
use sanmarino_crm.Transition.Matrices.{assert_supplier_request_status_transition}
use sanmarino_crm.Action.Leaves.{
  Leaves, Leaves-gets, Leaves-throw_if, Leaves-reads, Leaves-modify, Leaves-pure,
  Leaves-or_throw_end,
}
use sanmarino_crm.Action.Ensures.{Ensures, Ensures-elim, Ensures-gets, Ensures-or_throw_end}
use sanmarino_crm.Orders.Steps.{refuse-none}
use sanmarino_crm.Database.{Database, Db}
use sanmarino_crm.Orders.Service.{refuse}
use sanmarino_crm.Supply.Requests.{
  find_supplier_request, get_supplier_request_or_throw, advance_supplier_request,
  confirm_supplier_request_by_supplier, mark_supplier_request_paid, mark_supplier_request_stocked,
  confirmed_request, paid_request, stocked_request,
}

abbrev pub IsSome : {A : Type 0} → Option A → Type 0
IsSome none = ⊥
IsSome (some a) = Unit

-- What a request with a status must say.
abbrev pub Documents : SupplierRequestStatus → SupplierRequest → Type 0
Documents SupplierRequestStatus.formed r = Unit
Documents SupplierRequestStatus.confirmed_by_supplier r = IsSome r.confirmed_by
Documents SupplierRequestStatus.paid r = IsSome r.confirmed_by × IsSome r.paid_by × IsSome r.paid_at
Documents SupplierRequestStatus.stocked r =
    IsSome r.confirmed_by
    × IsSome r.paid_by
    × IsSome r.paid_at
    × IsSome r.stocked_by
    × IsSome r.stocked_at

abbrev pub IsDocumented : SupplierRequest → Type 0
IsDocumented r = Documents r.status r

paid_request-IsDocumented :
    (s : SupplierRequestStatus) (actor : Actor) (now : ℕ) (r : SupplierRequest)
    → assert_supplier_request_status_transition s SupplierRequestStatus.paid ≡ none
    → Documents s r
    → IsDocumented (paid_request actor now r)
unfolding assert_supplier_request_status_transition assert_transition supplier_request_status_eq
paid_request-IsDocumented SupplierRequestStatus.formed actor now r e h = absurd (cc e)
paid_request-IsDocumented SupplierRequestStatus.confirmed_by_supplier actor now r e h = (h, tt, tt)
paid_request-IsDocumented SupplierRequestStatus.paid actor now r e h = (h.0, tt, tt)
paid_request-IsDocumented SupplierRequestStatus.stocked actor now r e h = absurd (cc e)

stocked_request-IsDocumented :
    (s : SupplierRequestStatus) (actor : Actor) (now : ℕ) (r : SupplierRequest)
    → assert_supplier_request_status_transition s SupplierRequestStatus.stocked ≡ none
    → Documents s r
    → IsDocumented (stocked_request actor now r)
unfolding assert_supplier_request_status_transition assert_transition supplier_request_status_eq
stocked_request-IsDocumented SupplierRequestStatus.formed actor now r e h = absurd (cc e)
stocked_request-IsDocumented SupplierRequestStatus.confirmed_by_supplier actor now r e h =
    absurd (cc e)
stocked_request-IsDocumented SupplierRequestStatus.paid actor now r e (c, p, a) = (c, p, a, tt, tt)
stocked_request-IsDocumented SupplierRequestStatus.stocked actor now r e (c, p, a, s, t) =
    (c, p, a, tt, tt)

pub data RequestCall : Type 0 where
  confirm : Text → Text → Actor → RequestCall
  pay stock : Text → Actor → ℕ → RequestCall

module _ (D : Database) where
  abbrev pub request_rows : Db D → List SupplierRequest
  request_rows db = D.supplier_requests.rows db.supplier_requests

  -- Identifiers are distinct, and each request says what its status asks for.
  pub record Documented (db : Db D) : Type 0 where
    pub ids : Distinct (λ r. r.id) (request_rows db)
    pub documented : All IsDocumented (request_rows db)

  refuse-reads : {E : Type 0} (o : Option E) (db : Db D) → Leaves db (refuse o) (λ t. t ≡ db)
  unfolding refuse
  refuse-reads none db = record { at = refl }
  refuse-reads (some e) db = record { at = refl }

  get_supplier_request_or_throw-reads :
      (id : Text) (db : Db D) → Leaves db (get_supplier_request_or_throw D id) (λ t. t ≡ db)
  unfolding get_supplier_request_or_throw
  get_supplier_request_or_throw-reads id db = Leaves-gets _ _ (Leaves-or_throw_end _ _ refl)

  get_supplier_request_or_throw-found :
      (id : Text) (db : Db D)
      → Ensures db
          (get_supplier_request_or_throw D id)
          (λ r _. find_supplier_request D id db ≡ some r)
  unfolding get_supplier_request_or_throw
  get_supplier_request_or_throw-found id db =
      Ensures-gets _ _ (Ensures-or_throw_end _ _ _ λ r found. found)

  row-IsDocumented :
      (id : Text) (r : SupplierRequest) (db : Db D)
      → first (λ x. x.id == id) (request_rows db) ≡ some r
      → Documented db
      → IsDocumented r
  row-IsDocumented id r db found h =
      (All-first IsDocumented (λ x. x.id == id) (request_rows db) h.documented found).0

  advance_supplier_request-Documented :
      (id : Text) (target : SupplierRequestStatus) (change : SupplierRequest → SupplierRequest)
      (actor : Actor) (db : Db D)
      → ((r : SupplierRequest) → (change r).id ≡ r.id)
      → ((r : SupplierRequest)
          → assert_supplier_request_status_transition r.status target ≡ none
          → IsDocumented r
          → IsDocumented (change r))
      → Documented db
      → Leaves db (advance_supplier_request D id target change actor) Documented
  unfolding advance_supplier_request
  advance_supplier_request-Documented id target change actor db same step h =
      Leaves-reads _ _ (get_supplier_request_or_throw-reads id db) h λ r e.
        let found =
          sym (D.supplier_requests.find_first_lem (λ x. x.id == id) db.supplier_requests)
          ∙ Ensures-elim (get_supplier_request_or_throw-found id db) e in
        Leaves-reads _ _
          (refuse-reads (assert_supplier_request_status_transition r.status target) db) h
          λ _ passed.
            let allowed =
              (Ensures-elim
                (refuse-none (assert_supplier_request_status_transition r.status target) db)
                passed).1 in
            Leaves-modify _ _ (
              Leaves-pure _ record {
                ids =
                    rw (D.supplier_requests.update_lem id change db.supplier_requests)
                      (change-Distinct (λ r. r.id) _ change same (request_rows db) h.ids);
                documented = rw (D.supplier_requests.update_lem id change db.supplier_requests) (
                    All-change_found (λ r. r.id) IsDocumented IsDocumented (λ x. x.id == id) change
                      id (request_rows db) h.ids found (λ x t. ground (arith, t)) h.documented
                      (step r allowed (row-IsDocumented id r db found h)) (λ x d _. d));
              })

  -- The database after a call, whether it returns or throws.
  unfoldable pub run_request_call : RequestCall → Db D → Db D
  unfolding confirm_supplier_request_by_supplier mark_supplier_request_paid
      mark_supplier_request_stocked
  run_request_call (confirm id date actor) db =
      (confirm_supplier_request_by_supplier D id date actor db).1
  run_request_call (pay id actor now) db = (mark_supplier_request_paid D id actor now db).1
  run_request_call (stock id actor now) db = (mark_supplier_request_stocked D id actor now db).1

  unfoldable pub after_request_calls : List RequestCall → Db D → Db D
  unfolding run_request_call
  after_request_calls [] db = db
  after_request_calls (c ∷ cs) db = after_request_calls cs (run_request_call c db)

  run_request_call-Documented :
      (c : RequestCall) (db : Db D) → Documented db → Documented (run_request_call c db)
  unfolding run_request_call confirm_supplier_request_by_supplier mark_supplier_request_paid
      mark_supplier_request_stocked
  run_request_call-Documented (confirm id date actor) db h =
      (Leaves-throw_if _ _ _ (λ _. h)
        λ _.
          advance_supplier_request-Documented id _ (confirmed_request date actor) actor db
            (λ _. refl) (λ r _ _. tt) h).at
  run_request_call-Documented (pay id actor now) db h =
      (Leaves-throw_if _ _ _ (λ _. h)
        λ _.
          advance_supplier_request-Documented id _ (paid_request actor now) actor db (λ _. refl)
            (λ r. paid_request-IsDocumented r.status actor now r) h).at
  run_request_call-Documented (stock id actor now) db h =
      (Leaves-throw_if _ _ _ (λ _. h)
        λ _.
          advance_supplier_request-Documented id _ (stocked_request actor now) actor db (λ _. refl)
            (λ r. stocked_request-IsDocumented r.status actor now r) h).at

  -- Across any sequence of confirmations, payments and stockings of supplier requests, by whom
  -- ever and however each ends, a request that is confirmed says who has confirmed it, one that is
  -- paid says also who has paid it and when, and one that is stocked says all that and who has
  -- stocked it and when, if it was so at the start; identifiers of requests are distinct.
  pub after_request_calls-Documented :
      (cs : List RequestCall) (db : Db D) → Documented db → Documented (after_request_calls cs db)
  unfolding after_request_calls
  after_request_calls-Documented [] db h = h
  after_request_calls-Documented (c ∷ cs) db h =
      after_request_calls-Documented cs (run_request_call c db) (run_request_call-Documented c db h)
