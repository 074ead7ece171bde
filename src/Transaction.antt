-- ===== src/Transaction.antt =====
-- Work in a database transaction: it reads and writes a state, and may throw. What it wrote
-- before it threw is rolled back, since a failure carries no state.
use nitip_cuy.Prelude.{◌≡◌, refl, Bool, true, false, arith}
use nitip_cuy.Failure.{Failure, Result, ok, err, throw_if}

abbrev pub Transaction : Type 0 → Type 0 → Type 0
Transaction S A = S → Result (A × S)

-- The rest of the work, on what the part before it returned and on the state that it left.
abbrev pub continue : {S A B : Type 0} → Result (A × S) → (A → Transaction S B) → Result (B × S)
continue (err error) rest = err error
continue (ok (value, state)) rest = rest value state

infixl 5 ◌>>=◌ ◌>>◌
unfoldable pub ◌>>=◌ : {S A B : Type 0} → Transaction S A → (A → Transaction S B) → Transaction S B
part >>= rest = λ state. continue (part state) rest

abbrev pub ◌>>◌ : {S B : Type 0} → Transaction S (Unit {0}) → Transaction S B → Transaction S B
part >> rest = part >>= λ done. rest

-- A computation that does not touch the database.
unfoldable pub lift : {S A : Type 0} → Result A → Transaction S A
lift (ok value) state = ok (value, state)
lift (err error) state = err error

unfoldable pub return : {S A : Type 0} → A → Transaction S A
return value state = ok (value, state)

-- A query.
unfoldable pub reads : {S A : Type 0} → (S → A) → Transaction S A
reads query state = ok (query state, state)

-- A write.
unfoldable pub writes : {S : Type 0} → (S → S) → Transaction S (Unit {0})
writes change state = ok (tt, change state)

-- `unitOfWork.execute`: the state is the new one if the work returned, and the old one otherwise.
abbrev pub committed : {S A : Type 0} → Transaction S A → S → S
committed work state = elim (work state) [ err error ↦ state | ok (value, after) ↦ after ]

-- Work that returned: its first part returned, and the rest did, from there.
pub after_part {κ} :
    {S A B : Type 0} {Goal : Type κ} (part : Transaction S A) (rest : A → Transaction S B)
    (state : S) {out : B × S}
    → (part >>= rest) state ≡ ok out
    → ((value : A) (next : S) → part state ≡ ok (value, next) → rest value next ≡ ok out → Goal)
    → Goal
unfolding ◌>>=◌
after_part {S} {A} {B} {Goal} part rest state {out} h goal = go (part state) refl h
  where
    go : (result : Result (A × S)) → part state ≡ result → continue result rest ≡ ok out → Goal
    go (err error) e h = absurd (ground arith)
    go (ok (value, next)) e h = goal value next e h

-- A lifted computation that returned leaves the state as it is.
pub lift-eq-ok :
    {S A : Type 0} (call : Result A) (state next : S) (value : A)
    → lift call state ≡ ok (value, next)
    → (call ≡ ok value) × (next ≡ state)
unfolding lift
lift-eq-ok (ok a) state next value h = (ground arith, ground arith)
lift-eq-ok (err error) state next value h = absurd (ground arith)

-- A query leaves the state as it is.
pub reads-eq-ok :
    {S A : Type 0} (query : S → A) (state next : S) (value : A)
    → reads query state ≡ ok (value, next)
    → (query state ≡ value) × (next ≡ state)
unfolding reads
reads-eq-ok query state next value h = (ground arith, ground arith)

-- A value that is returned leaves the state as it is.
pub return-eq-ok :
    {S A : Type 0} (value out : A) (state next : S)
    → return value state ≡ ok (out, next)
    → (out ≡ value) × (next ≡ state)
unfolding return
return-eq-ok value out state next h = (ground arith, ground arith)

-- A write returns nothing, and leaves the new state.
pub writes-eq-ok :
    {S : Type 0} (change : S → S) (state next : S) (value : Unit {0})
    → writes change state ≡ ok (value, next)
    → next ≡ change state
unfolding writes
writes-eq-ok change state next value h = ground arith

-- The same, if the first part is a lifted computation: it returned, and left the state.
pub after_lift {κ} :
    {S A B : Type 0} {Goal : Type κ} (call : Result A) (rest : A → Transaction S B) (state : S)
    {out : B × S}
    → (lift call >>= rest) state ≡ ok out
    → ((value : A) → call ≡ ok value → rest value state ≡ ok out → Goal)
    → Goal
unfolding ◌>>=◌ lift
after_lift (ok value) rest state h goal = goal value refl h
after_lift (err error) rest state h goal = absurd (ground arith)

-- The same, if the first part is a guard: it let the work pass.
pub after_guard {κ} :
    {S B : Type 0} {Goal : Type κ} (bad : Bool) (error : Failure) (rest : Transaction S B)
    (state : S) {out : B × S}
    → (lift (throw_if bad error) >> rest) state ≡ ok out
    → (bad ≡ false → rest state ≡ ok out → Goal)
    → Goal
unfolding ◌>>=◌ lift
after_guard false error rest state h goal = goal refl h
after_guard true error rest state h goal = absurd (ground arith)

-- What a query answered, in a state that the work passed through.
pub record WasRead {S A : Type 0} (query : Transaction S A) (answer : A) : Type 0 where
  pub before : S
  pub after : S
  pub read : query before ≡ ok (answer, after)
