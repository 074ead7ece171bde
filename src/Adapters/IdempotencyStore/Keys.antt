-- ===== src/Adapters/IdempotencyStore/Keys.antt =====
-- Scoped keys tell the keys of valid operations apart.
use nitip_cuy.Prelude.{
  ℕ, ◌<◌, both_of_and, ap, ◌≡◌, refl, Bool, true, [], ◌∷◌, ◌++◌, none, arith, all,
}
use nitip_cuy.Text.{Text}
use nitip_cuy.Text.Chars.{matches, is_alnum, is_safe_visible, is_lower, is_dotted_slug}
use nitip_cuy.Application.Idempotency.{IdempotentOperation, validate_operation}
use nitip_cuy.Application.Idempotency.Valid.{validate_operation_iff}
use nitip_cuy.Application.Idempotency.Contract.{SameKey}
use nitip_cuy.Adapters.IdempotencyStore.{to_scoped_key, scoped_key}

-- No unit of the text is NUL.
abbrev NoNul : Text → Type 0
NoNul [] = Unit
NoNul (c ∷ s) = (0 < c) × NoNul s

NoNul-class :
    (p : ℕ → Bool) → ((c : ℕ) → p c ≡ true → 0 < c) → (s : Text) → all p s ≡ true → NoNul s
NoNul-class p pos [] h = tt
NoNul-class p pos (c ∷ s) h =
    let (here, later) = both_of_and (p c) (all p s) h in (pos c here, NoNul-class p pos s later)

visible_pos : (c : ℕ) → is_safe_visible c ≡ true → 0 < c
visible_pos c h = ground arith

dotted_pos : (c : ℕ) → is_dotted_slug c ≡ true → 0 < c
dotted_pos c h = ground arith

scope-NoNul : (s : Text) → matches is_alnum is_safe_visible 2 191 s ≡ true → NoNul s
unfolding matches
scope-NoNul [] h = tt
scope-NoNul (c ∷ s) h = (ground arith, NoNul-class is_safe_visible visible_pos s (ground arith))

operation-NoNul : (s : Text) → matches is_lower is_dotted_slug 2 63 s ≡ true → NoNul s
unfolding matches
operation-NoNul [] h = tt
operation-NoNul (c ∷ s) h = (ground arith, NoNul-class is_dotted_slug dotted_pos s (ground arith))

abbrev tail_units : Text → Text
tail_units [] = []
tail_units (c ∷ s) = s

-- A text without NUL ends where the first NUL stands.
split_at_nul :
    (s t : Text) {u v : Text} → NoNul s → NoNul t → s ++ (0 ∷ u) ≡ t ++ (0 ∷ v) → (s ≡ t) × (u ≡ v)
split_at_nul [] [] hs ht e = (refl, cc)
split_at_nul [] (d ∷ t) hs ht e = ground arith
split_at_nul (c ∷ s) [] hs ht e = ground arith
split_at_nul (c ∷ s) (d ∷ t) hs ht e =
    let (same, rest) = split_at_nul s t hs.1 ht.1 (ap tail_units e) in (cc, rest)

scoped_key-SameKey :
    (o p : IdempotentOperation)
    → NoNul o.scope
    → NoNul p.scope
    → NoNul o.operation
    → NoNul p.operation
    → scoped_key o ≡ scoped_key p
    → SameKey o p
unfolding to_scoped_key
scoped_key-SameKey o p a b c d e =
    let (scopes, rest) = split_at_nul o.scope p.scope a b e in
    let (operations, keys) = split_at_nul o.operation p.operation c d rest in
    record { scope = scopes; operation = operations; key = keys }

-- Two operations that pass validation share a scoped key only if they have the same scope,
-- namespace and key, whatever characters the keys have.
pub scoped_key_injective :
    (o p : IdempotentOperation)
    → validate_operation o ≡ none
    → validate_operation p ≡ none
    → scoped_key o ≡ scoped_key p
    → SameKey o p
scoped_key_injective o p vo vp e =
    let a = (validate_operation_iff o).0 vo in
    let b = (validate_operation_iff p).0 vp in
    scoped_key-SameKey o p (scope-NoNul o.scope a.scope) (scope-NoNul p.scope b.scope)
      (operation-NoNul o.operation a.operation) (operation-NoNul p.operation b.operation) e
