-- ===== src/Adapters/Marketplace/Orders/Kept.antt =====
-- What order submission keeps: a recorded order and its key stay recorded until they expire.
use nitip_cuy.Prelude.{
  ℕ, ◌<◌, ◌≡◌, refl, sym, ◌∙◌, subst, Bool, true, false, not, Option, none, some, List, [], ◌∷◌,
  if◌then◌else◌, arith, Bool-cases, inl, inr, leb, any,
}
use nitip_cuy.Text.{Text, text_eq, text_eq_iff, text_eq_refl}
use nitip_cuy.Failure.{Result, ok}
use nitip_cuy.Platform.{Platform}
use nitip_cuy.Transaction.{
  Transaction, ◌>>=◌, lift, return, reads, writes, after_part, after_lift, after_guard, ◌>>◌,
  lift-eq-ok, reads-eq-ok, return-eq-ok, writes-eq-ok,
}
use nitip_cuy.Application.Marketplace.{
  SubmissionKey, SubmittedOrderRequest, OrderSubmissionClaim, granted, conflicting, running,
}
use nitip_cuy.Adapters.Marketplace.{OrderRow, SubmissionRow, Database}
use nitip_cuy.Adapters.Marketplace.Writing.{order_row, date_column}
use nitip_cuy.Adapters.Marketplace.Orders.{
  Readings, find, remove_matching, is_submission, replay_request, claim_found, claim_submission,
  create_order, complete_submission,
}

-- The work keeps what holds of a state.
unfoldable pub Preserves : {A : Type 0} → (Database → Type 0) → Transaction Database A → Type 0
Preserves {A} P work =
    (db after : Database) (value : A) → work db ≡ ok (value, after) → P db → P after

module _ (P : Database → Type 0) where
  pub Preserves-lift : {A : Type 0} (call : Result A) → Preserves P (lift call)
  unfolding Preserves
  Preserves-lift call db after value h k = subst P (sym (lift-eq-ok call db after value h).1) k

  pub Preserves-reads : {A : Type 0} (query : Database → A) → Preserves P (reads query)
  unfolding Preserves
  Preserves-reads query db after value h k = subst P (sym (reads-eq-ok query db after value h).1) k

  pub Preserves-return : {A : Type 0} (a : A) → Preserves P (return a)
  unfolding Preserves
  Preserves-return a db after value h k = subst P (sym (return-eq-ok a value db after h).1) k

  pub Preserves-writes :
      (change : Database → Database)
      → ((db : Database) → P db → P (change db))
      → Preserves P (writes change)
  unfolding Preserves
  Preserves-writes change f db after value h k =
      subst P (sym (writes-eq-ok change db after value h)) (f db k)

  pub Preserves->>= :
      {A B : Type 0} (part : Transaction Database A) (rest : A → Transaction Database B)
      → Preserves P part
      → ((a : A) → Preserves P (rest a))
      → Preserves P (part >>= rest)
  unfolding Preserves
  Preserves->>= part rest k l db after value h holds =
      after_part part rest db h
        λ a next first second. l a next after value second (k db next a first holds)

  -- A value that is returned is handed on.
  pub Preserves-after_return :
      {A B : Type 0} (a : A) (rest : A → Transaction Database B)
      → Preserves P (rest a)
      → Preserves P (return a >>= rest)
  unfolding Preserves ◌>>=◌ return
  Preserves-after_return a rest k = k

  pub Preserves-if :
      {A : Type 0} (b : Bool) (yes_work no_work : Transaction Database A)
      → Preserves P yes_work
      → Preserves P no_work
      → Preserves P (if b then yes_work else no_work)
  Preserves-if true y n k l = k
  Preserves-if false y n k l = l

find-fits :
    {Row : Type 0} (fits : Row → Bool) (rows : List Row) (row : Row)
    → find fits rows ≡ some row
    → fits row ≡ true
find-fits fits [] row h = absurd (ground arith)
find-fits fits (first ∷ rows) row h = elim (Bool-cases (fits first)) [
  | inl here ↦ (let same : first ≡ row = ground arith in subst (λ x. fits x ≡ true) same here)
  | inr later ↦ ground (arith, find-fits fits rows row)
]

find-remove_matching :
    {Row : Type 0} (fits other : Row → Bool) (rows : List Row) (row : Row)
    → find fits rows ≡ some row
    → other row ≡ false
    → find fits (remove_matching other rows) ≡ some row
unfolding remove_matching
find-remove_matching fits other [] row h k = h
find-remove_matching fits other (first ∷ rows) row h k = elim (Bool-cases (fits first)) [
  | inl here ↦ ground arith
  | inr later ↦ ground (arith, find-remove_matching fits other rows row)
]

any-find :
    {Row : Type 0} (fits : Row → Bool) (rows : List Row) (row : Row)
    → find fits rows ≡ some row
    → any fits rows ≡ true
any-find fits [] row h = absurd (ground arith)
any-find fits (first ∷ rows) row h = elim (Bool-cases (fits first)) [
  | inl here ↦ rw here refl
  | inr later ↦ ground (arith, any-find fits rows row)
]

-- The key's submission is a row, and the order of that row another.
pub record IsRecordedAs (key : SubmissionKey) (submission : SubmissionRow) (order : OrderRow)
    (db : Database) : Type 0 where
  pub submitted : find (is_submission key) db.submissions ≡ some submission
  pub ordered : find (λ row. text_eq row.id submission.request_id) db.orders ≡ some order

-- Keys of one submission are the same, but for the fingerprint.
same_key :
    (key other : SubmissionKey) (row : SubmissionRow)
    → is_submission key row ≡ true
    → is_submission other row ≡ true
    → (other.customer_account_id ≡ key.customer_account_id) × (other.key_digest ≡ key.key_digest)
same_key key other row h k = ground (
  arith,
  text_eq_iff row.customer_account_id key.customer_account_id,
  text_eq_iff row.customer_account_id other.customer_account_id,
  text_eq_iff row.key_digest key.key_digest,
  text_eq_iff row.key_digest other.key_digest,
)

pub find_same :
    (key other : SubmissionKey) (rows : List SubmissionRow)
    → (other.customer_account_id ≡ key.customer_account_id) × (other.key_digest ≡ key.key_digest)
    → find (is_submission other) rows ≡ find (is_submission key) rows
find_same key other rows (customer, digest) = rw (customer, digest) refl

any_same :
    (key other : SubmissionKey) (rows : List SubmissionRow)
    → (other.customer_account_id ≡ key.customer_account_id) × (other.key_digest ≡ key.key_digest)
    → any (is_submission other) rows ≡ any (is_submission key) rows
any_same key other rows (customer, digest) = rw (customer, digest) refl

module _ (p : Platform) (readings : Readings) (key : SubmissionKey) (submission : SubmissionRow)
    (order : OrderRow) where
  -- Whether a submission is live at the time that the run observes.
  abbrev pub IsLive : Type 0
  IsLive =
      (now : ℕ) × (p.parse_date (p.to_iso_string readings.observed_at) ≡ some now)
      × (now < submission.expires_at)

  abbrev pub Kept : Database → Type 0
  Kept = IsRecordedAs key submission order

  pub Kept-replay : (row : Option OrderRow) → Preserves Kept (replay_request p readings row)
  unfolding replay_request
  Kept-replay none = Preserves-lift Kept _
  Kept-replay (some row) =
      Preserves->>= Kept _ _ (Preserves-lift Kept _) λ request. Preserves-return Kept _

  -- A row that is found with this key is the submission, which has not expired; another row that is
  -- removed is of another key.
  not_removed :
      (other : SubmissionKey) (row : SubmissionRow) (now : ℕ) (db : Database)
      → Kept db
      → find (is_submission other) db.submissions ≡ some row
      → now < submission.expires_at
      → leb row.expires_at now ≡ true
      → is_submission other submission ≡ false
  not_removed other row now db kept found live expired =
      elim (Bool-cases (is_submission other submission)) [
        | inr different ↦ different
        | inl same ↦
            (let keys =
                same_key key other submission
                  (find-fits (is_submission key) db.submissions submission kept.submitted) same in
              let equal : row ≡ submission =
                ground (arith, find_same key other db.submissions keys, found, kept.submitted) in
              absurd (ground (arith, equal)))
      ]

  -- A removal of an expired submission.
  Kept-removal :
      (other : SubmissionKey) (row : SubmissionRow) (now : ℕ) (db : Database)
      → find (is_submission other) db.submissions ≡ some row
      → now < submission.expires_at
      → leb row.expires_at now ≡ true
      → Kept db
      → Kept (record db { submissions = remove_matching (is_submission other) db.submissions })
  Kept-removal other row now db found live expired kept = record {
    submitted =
        find-remove_matching (is_submission key) (is_submission other) db.submissions submission
          kept.submitted (not_removed other row now db kept found live expired);
    ordered = kept.ordered;
  }

  Kept-some :
      (other : SubmissionKey) (row : SubmissionRow) (now : ℕ) (db after : Database)
      (answered : OrderSubmissionClaim)
      → p.parse_date (p.to_iso_string readings.observed_at) ≡ some now
      → now < submission.expires_at
      → find (is_submission other) db.submissions ≡ some row
      → claim_found p readings other (p.to_iso_string readings.observed_at) (some row) db
        ≡ ok (answered, after)
      → Kept db
      → Kept after
  unfolding claim_found Preserves
  Kept-some other row now db after answered observed live found h kept =
      elim (Bool-cases (leb row.expires_at now)) [
        | inl expired ↦
            (let h' : (writes (λ d. record d {
              submissions = remove_matching (is_submission other) d.submissions;
            })
                      >> return granted)
                    db
                  ≡ ok (answered, after) =
                subst (λ x. x ≡ ok (answered, after)) (rw (observed, expired) refl) h in
              after_part (writes _) _ db h' λ u s1 e1 h1.
                subst Kept
                  (sym ((return-eq-ok _ answered s1 after h1).1 ∙ writes-eq-ok _ db s1 u e1))
                  (Kept-removal other row now db found live expired kept))
        | inr later ↦
            Preserves-if Kept (not (text_eq row.fingerprint other.fingerprint)) (return conflicting)
              (reads (λ d. find (λ o. text_eq o.id row.request_id) d.orders)
                >>= replay_request p readings)
              (Preserves-return Kept _)
              (Preserves->>= Kept _ _ (Preserves-reads Kept _) Kept-replay) db after answered
              (subst (λ x. x ≡ ok (answered, after)) (rw (observed, later) refl) h) kept
      ]

  pub Kept-claim :
      (other : SubmissionKey)
      → IsLive
      → Preserves Kept (claim_submission p readings other (p.to_iso_string readings.observed_at))
  unfolding claim_submission claim_found Preserves
  Kept-claim other (now, observed, live) =
      Preserves-if Kept (not readings.lock_acquired) (return running)
        (reads (λ db. find (is_submission other) db.submissions)
          >>= claim_found p readings other (p.to_iso_string readings.observed_at))
        (Preserves-return Kept running)
        λ db after answered h kept.
          after_part (reads (λ d. find (is_submission other) d.submissions)) _ db h
            λ found s1 e1 h1.
              let (is_found, same) =
                reads-eq-ok (λ d. find (is_submission other) d.submissions) db s1 found e1 in
              answer found s1 db after answered is_found same h1 kept
    where
      answer :
          (found : Option SubmissionRow) (s1 db after : Database) (answered : OrderSubmissionClaim)
          → find (is_submission other) db.submissions ≡ found
          → s1 ≡ db
          → claim_found p readings other (p.to_iso_string readings.observed_at) found s1
            ≡ ok (answered, after)
          → Kept db
          → Kept after
      answer none s1 db after answered is_found same h kept =
          Preserves-return Kept granted s1 after answered h (rw same kept)
      answer (some row) s1 db after answered is_found same h kept =
          Kept-some other row now s1 after answered observed live (rw same is_found) h
            (rw same kept)

  new_order :
      (row : OrderRow) (db : Database)
      → Kept db
      → any (λ o. text_eq o.id row.id) db.orders ≡ false
      → text_eq row.id submission.request_id ≡ false
  new_order row db kept untaken = elim (Bool-cases (text_eq row.id submission.request_id)) [
    | inr different ↦ different
    | inl same ↦
        (let equal = (text_eq_iff row.id submission.request_id).0 same in
          let taken : any (λ o. text_eq o.id row.id) db.orders ≡ true =
            rw equal
              (any-find (λ o. text_eq o.id submission.request_id) db.orders order kept.ordered) in
          absurd (ground arith))
  ]

  new_key :
      (other : SubmissionKey) (row : SubmissionRow) (db : Database)
      → Kept db
      → row.customer_account_id ≡ other.customer_account_id
      → row.key_digest ≡ other.key_digest
      → any (is_submission other) db.submissions ≡ false
      → is_submission key row ≡ false
  new_key other row db kept customer digest untaken = elim (Bool-cases (is_submission key row)) [
    | inr different ↦ different
    | inl same ↦
        (let own : is_submission other row ≡ true =
            rw
              (
                customer,
                digest,
                text_eq_refl other.customer_account_id,
                text_eq_refl other.key_digest,
              )
              refl in
          let taken : any (is_submission other) db.submissions ≡ true =
            any_same key other db.submissions (same_key key other row same own)
            ∙ any-find (is_submission key) db.submissions submission kept.submitted in
          absurd (ground arith))
  ]

  -- An order that is created has another identifier, since identifiers are unique.
  pub Kept-create :
      (request : SubmittedOrderRequest) → Preserves Kept (create_order p readings request)
  unfolding create_order Preserves
  Kept-create request db after done h kept = after_lift (order_row p request) _ db h λ row e1 h1.
      after_part (reads _) _ db h1 λ taken s2 e2 h2. after_guard taken _ _ s2 h2 λ free h3.
        let (is_taken, same) =
          reads-eq-ok (λ d. any (λ o. text_eq o.id row.id) d.orders) db s2 taken e2 in
        let untaken : any (λ o. text_eq o.id row.id) db.orders ≡ false = is_taken ∙ free in
        let made = writes-eq-ok _ s2 after done h3 in
        record {
          submitted = rw (made, same) kept.submitted;
          ordered = rw (made, same, new_order row db kept untaken) kept.ordered;
        }

  -- What else is written is neither an order nor a submission.
  pub Kept-same :
      (change : Database → Database)
      → ((db : Database) → (change db).orders ≡ db.orders)
      → ((db : Database) → (change db).submissions ≡ db.submissions)
      → Preserves Kept (writes change)
  Kept-same change orders submissions = Preserves-writes Kept change λ db kept. record {
    submitted = rw (submissions db) kept.submitted;
    ordered = rw (orders db) kept.ordered;
  }

  -- A submission that is completed has another key, since keys are unique.
  pub Kept-complete :
      (other : SubmissionKey) (id completed_at expires_at : Text)
      → Preserves Kept (complete_submission p readings other id completed_at expires_at)
  unfolding complete_submission Preserves
  Kept-complete other id completed_at expires_at db after done h kept =
      after_lift (date_column p completed_at) _ db h λ completed e1 h1.
        after_lift (date_column p expires_at) _ db h1 λ expires e2 h2.
          after_part (reads (λ d. any (is_submission other) d.submissions)) _ db h2
            λ taken s3 e3 h3. after_guard taken _ _ s3 h3 λ free h4.
              let (is_taken, same) =
                reads-eq-ok (λ d. any (is_submission other) d.submissions) db s3 taken e3 in
              let untaken : any (is_submission other) db.submissions ≡ false = is_taken ∙ free in
              let made = writes-eq-ok _ s3 after done h4 in
              let row : SubmissionRow = record {
                customer_account_id = other.customer_account_id;
                key_digest = other.key_digest;
                fingerprint = other.fingerprint;
                request_id = id;
                completed_at = completed;
                expires_at = expires;
              } in
              let apart : is_submission key row ≡ false =
                new_key other row db kept refl refl untaken in
              record {
                submitted = rw (made, same, apart) kept.submitted;
                ordered = rw (made, same) kept.ordered;
              }
