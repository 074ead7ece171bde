-- ===== src/Adapters/Marketplace/Orders/Conservation.antt =====
-- Order submission over the database neither makes nor loses capacity: what a trip's row loses is
-- what the new order's row holds.
use nitip_cuy.Prelude.{
  ℕ, ◌+◌, ◌-◌, ◌≡◌, refl, sym, ◌∙◌, subst, ap, Bool, true, false, Option, none, some, List, [], ◌∷◌,
  if◌then◌else◌, arith, Bool-cases, inl, inr,
}
use nitip_cuy.Text.{Text, text_eq, text_eq_iff}
use nitip_cuy.Failure.{Result, ok}
use nitip_cuy.Platform.{Platform}
use nitip_cuy.Transaction.{
  Transaction, ◌>>=◌, lift, return, reads, writes, after_part, lift-eq-ok, reads-eq-ok,
  return-eq-ok, writes-eq-ok,
}
use nitip_cuy.Domain.Account.{AuthenticatedActor}
use nitip_cuy.Application.Marketplace.{SubmissionKey, require_current_actor}
use nitip_cuy.Adapters.Marketplace.{TripRow, OrderRow, SubmissionRow, Database}
use nitip_cuy.Adapters.Marketplace.Orders.{
  Readings, count_matching, update_matching, is_reservable, reserve_row, replay_request,
  claim_found, claim_submission, complete_submission, transaction_context,
}

-- The capacity that the rows of a trip have left, in units of ten grams.
unfoldable pub remaining_of : Text → List TripRow → ℕ
remaining_of id [] = 0
remaining_of id (row ∷ rows) =
    (if text_eq row.id id then row.remaining_capacity else 0) + remaining_of id rows

-- The capacity that the orders on a trip hold.
unfoldable pub reserved_of : Text → List OrderRow → ℕ
reserved_of id [] = 0
reserved_of id (row ∷ rows) =
    (if text_eq row.trip_id id then row.reserved_capacity else 0) + reserved_of id rows

abbrev pub capacity_of : Text → Database → ℕ
capacity_of id db = remaining_of id db.trips + reserved_of id db.orders

-- What a reservation on the trip `t` costs the trip `id`.
abbrev pub cost : Text → Text → ℕ → ℕ
cost t id units = if text_eq t id then units else 0

none_updated :
    (t : Text) (version units : ℕ) (rows : List TripRow)
    → count_matching (is_reservable t version units) rows ≡ 0
    → update_matching (is_reservable t version units) (reserve_row units) rows ≡ rows
unfolding count_matching update_matching
none_updated t version units [] h = refl
none_updated t version units (row ∷ rows) h =
    elim (Bool-cases (is_reservable t version units row)) [
      | inl fits ↦ ground (arith, none_updated t version units rows)
      | inr other ↦ ground (arith, none_updated t version units rows)
    ]

remaining_of-reserve_row :
    (t id : Text) (version units rest : ℕ) (row : TripRow)
    → is_reservable t version units row ≡ true
    → (if text_eq row.id id then row.remaining_capacity - units else 0) + rest + cost t id units
      ≡ (if text_eq row.id id then row.remaining_capacity else 0) + rest
remaining_of-reserve_row t id version units rest row h =
    ground (arith, text_eq_iff row.id t, text_eq_iff row.id id, text_eq_iff t id)

-- One row is charged by what is reserved.
pub remaining_of-update :
    (t id : Text) (version units : ℕ) (rows : List TripRow)
    → count_matching (is_reservable t version units) rows ≡ 1
    → remaining_of id (update_matching (is_reservable t version units) (reserve_row units) rows)
        + cost t id units
      ≡ remaining_of id rows
unfolding count_matching update_matching remaining_of
remaining_of-update t id version units [] h = absurd (ground arith)
remaining_of-update t id version units (row ∷ rows) h =
    elim (Bool-cases (is_reservable t version units row)) [
      | inl fits ↦
          rw (fits, none_updated t version units rows (ground arith))
            (remaining_of-reserve_row t id version units (remaining_of id rows) row fits)
      | inr other ↦ rw other (ground (arith, remaining_of-update t id version units rows))
    ]

-- Trips and orders are the same.
pub record Same (db after : Database) : Type 0 where
  pub trips : after.trips ≡ db.trips
  pub orders : after.orders ≡ db.orders

pub Same-trans : {a b c : Database} → Same a b → Same b c → Same a c
Same-trans k l = record { trips = l.trips ∙ k.trips; orders = l.orders ∙ k.orders }

Same-of_path : {a b : Database} → b ≡ a → Same a b
Same-of_path e = record { trips = ap (λ db. db.trips) e; orders = ap (λ db. db.orders) e }

-- The work leaves trips and orders as they are.
unfoldable pub Keeps : {A : Type 0} → Transaction Database A → Type 0
Keeps {A} work = (db after : Database) (value : A) → work db ≡ ok (value, after) → Same db after

pub Keeps-lift : {A : Type 0} (call : Result A) → Keeps (lift call)
unfolding Keeps
Keeps-lift call db after value h = Same-of_path (lift-eq-ok call db after value h).1

pub Keeps-reads : {A : Type 0} (query : Database → A) → Keeps (reads query)
unfolding Keeps reads
Keeps-reads query db after value h = Same-of_path (reads-eq-ok query db after value h).1

pub Keeps->>= :
    {A B : Type 0} (part : Transaction Database A) (rest : A → Transaction Database B)
    → Keeps part
    → ((a : A) → Keeps (rest a))
    → Keeps (part >>= rest)
unfolding Keeps
Keeps->>= part rest k l db after value h =
    after_part part rest db h
      λ a next first second. Same-trans (k db next a first) (l a next after value second)

pub Keeps-writes :
    (change : Database → Database) → ((db : Database) → Same db (change db)) → Keeps (writes change)
unfolding Keeps
Keeps-writes change k db after value h =
    subst (Same db) (sym (writes-eq-ok change db after value h)) (k db)

pub Keeps-if :
    {A : Type 0} (b : Bool) (yes_work no_work : Transaction Database A)
    → Keeps yes_work
    → Keeps no_work
    → Keeps (if b then yes_work else no_work)
Keeps-if true y n k l = k
Keeps-if false y n k l = l

pub Keeps-return : {A : Type 0} (a : A) → Keeps (return a)
unfolding Keeps return
Keeps-return a db after value h = Same-of_path (return-eq-ok a value db after h).1

module _ (p : Platform) (readings : Readings) where
  pub Keeps-replay : (row : Option OrderRow) → Keeps (replay_request p readings row)
  unfolding replay_request
  Keeps-replay none = Keeps-lift _
  Keeps-replay (some row) = Keeps->>= _ _ (Keeps-lift _) λ request. Keeps-return _

  pub Keeps-found :
      (key : SubmissionKey) (observed_at : Text) (row : Option SubmissionRow)
      → Keeps (claim_found p readings key observed_at row)
  unfolding claim_found
  Keeps-found key observed_at none = Keeps-return _
  Keeps-found key observed_at (some row) =
      Keeps-if _ _ _
        (Keeps->>= _ _ (Keeps-writes _ λ db. record { trips = refl; orders = refl })
          λ done. Keeps-return _)
        (Keeps-if _ _ _ (Keeps-return _) (Keeps->>= _ _ (Keeps-reads _) (Keeps-replay)))

  pub Keeps-claim :
      (key : SubmissionKey) (observed_at : Text)
      → Keeps (claim_submission p readings key observed_at)
  unfolding claim_submission
  Keeps-claim key observed_at =
      Keeps-if _ _ _ (Keeps-return _) (Keeps->>= _ _ (Keeps-reads _) (Keeps-found key observed_at))

  pub Keeps-complete :
      (key : SubmissionKey) (id completed expires : Text)
      → Keeps (complete_submission p readings key id completed expires)
  unfolding complete_submission
  Keeps-complete key id completed expires = Keeps->>= _ _ (Keeps-lift _) λ c.
      Keeps->>= _ _ (Keeps-lift _) λ e. Keeps->>= _ _ (Keeps-reads _) λ t.
        Keeps->>= _ _ (Keeps-lift _)
          λ done. Keeps-writes _ λ db. record { trips = refl; orders = refl }

  pub Keeps-actor :
      (actor : AuthenticatedActor) (observed_at : Text)
      → Keeps (require_current_actor (transaction_context p readings) actor observed_at)
  unfolding require_current_actor
  Keeps-actor actor observed_at =
      Keeps->>= _ _ (Keeps->>= _ _ (Keeps-reads _) λ row. Keeps-lift _) λ found.
        Keeps->>= _ _ (Keeps-lift _) λ account. Keeps->>= _ _ (Keeps-lift _) λ done.
          Keeps->>= _ _ (Keeps-reads _) λ live. Keeps->>= _ _ (Keeps-lift _) λ done'. Keeps-return _
