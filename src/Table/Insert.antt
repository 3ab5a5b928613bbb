-- ===== src/Table/Insert.antt =====
-- `create` as an action on a state that has a table among its parts.
use sanmarino_crm.Base.{
  ◌≡◌, refl, Bool, false, Option, none, some, ◌∷◌, Text, any, Option-cases, inl, inr,
}
use sanmarino_crm.Action.Succeeds.{Succeeds}
use sanmarino_crm.Action.{Action, ok, err}
use sanmarino_crm.Action.Ensures.{Returns, Ensures}
use sanmarino_crm.Errors.{unique_constraint_error}
use sanmarino_crm.Table.{Table}

module _ {S Row : Type 0} {key : Row → Text} {clash : Row → Row → Bool} (T : Table Row key clash)
    (get : S → T.Store) (put : T.Store → S → S) where
  unfoldable pub create_in : Row → Action S (Unit {0})
  create_in r s = elim (T.create r (get s)) [
    | none ↦ (err unique_constraint_error, s)
    | some t ↦ (ok tt, put t s)
  ]

  pub Ensures-create_in :
      (r : Row) (s : S) (Q : Unit {0} → S → Type 0)
      → ((t : T.Store) → T.rows t ≡ r ∷ T.rows (get s) → Q tt (put t s))
      → Ensures s (create_in r) Q
  unfolding create_in
  Ensures-create_in r s Q h = record { at = go (T.create r (get s)) refl }
    where
      go :
          (o : Option T.Store)
          → T.create r (get s) ≡ o
          → Returns Q
              (elim o [ none ↦ (err unique_constraint_error, s) | some t ↦ (ok tt, put t s) ])
      go none e = tt
      go (some t) e = h t (T.create-rows r (get s) e)

  -- A row that clashes with none is inserted.
  pub Succeeds-create_in :
      (r : Row) (s : S) (Q : Unit {0} → S → Type 0)
      → any (clash r) (T.rows (get s)) ≡ false
      → ((t : T.Store) → T.rows t ≡ r ∷ T.rows (get s) → Q tt (put t s))
      → Succeeds s (create_in r) Q
  unfolding create_in
  Succeeds-create_in r s Q free h = elim (Option-cases (T.create r (get s))) [
    | inl refused ↦ absurd (cc (free, (T.create-eq-none r (get s)).0 refused))
    | inr (t, e) ↦ record {
      value = tt;
      after = put t s;
      run = cc e;
      holds = h t (T.create-rows r (get s) e);
    }
  ]
