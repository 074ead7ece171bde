-- ===== src/Domain/OrderRequest/Exact.antt =====
-- `normalizeOrderRequestTerms` accepts exactly the terms within the documented bounds.
use nitip_cuy.Prelude.{ℕ, ◌≤◌, ◌%◌, ◌≡◌, refl, ◌↔◌, inl, Bool, Option, none, some, subst, arith}
use nitip_cuy.Text.{Text}
use nitip_cuy.Text.Trim.{trim, trim_idem}
use nitip_cuy.Number.{Number, whole}
use nitip_cuy.Failure.{ok, >>=-eq-ok}
use nitip_cuy.Domain.OrderRequest.{
  Given, given, ill_typed, ShopForMeRequestTerms, CarryMyItemRequestTerms, shop, carry, GivenTerms,
  NormalTerms, bounded_integer, capacity_grams, require_boolean, bounded_text, optional_text,
  normalize_shop, normalize_carry, normalize_order_request_terms, requested_capacity_grams,
}
use nitip_cuy.Domain.OrderRequest.Bounds.{
  Denotes, bounded_integer_iff, capacity_grams_iff, require_boolean_iff, IsBounded, TrimsTo,
  bounded_text_iff, OptionallyTrimsTo, optional_text_iff,
}

-- The number is `n`, which lies within the bounds.
abbrev pub IsInteger : Number → ℕ → ℕ → ℕ → Type 0
IsInteger value n lo hi = Denotes value n × (lo ≤ n) × (n ≤ hi)

-- The number is `n`, a multiple of ten grams within the bounds of a capacity.
abbrev pub IsCapacity : Number → ℕ → Type 0
IsCapacity value n = Denotes value n × (10 ≤ n) × (n ≤ 100_000_000) × (n % 10 ≡ 0)

abbrev pub IsText : Given Text → Text → ℕ → ℕ → Type 0
IsText value s lo hi = TrimsTo value s × IsBounded s lo hi

-- The contract of a `SHOP_FOR_ME` request: each field of the result is that of the input, trimmed
-- if it is a text, and lies within its bounds.
pub record AcceptsShop (i : ShopForMeRequestTerms Number (Given Bool) (Given Text))
    (o : ShopForMeRequestTerms ℕ Bool Text) : Type 0 where
  pub item_description : IsText i.item_description o.item_description 3 500
  pub quantity : IsInteger i.quantity o.quantity 1 100
  pub maximum_budget_idr : IsInteger i.maximum_budget_idr o.maximum_budget_idr 1 2_000_000_000
  pub requested_capacity_grams : IsCapacity i.requested_capacity_grams o.requested_capacity_grams
  pub allow_substitution : i.allow_substitution ≡ given o.allow_substitution
  pub variation : OptionallyTrimsTo i.variation o.variation 1 200

-- The contract of a `CARRY_MY_ITEM` request.
pub record AcceptsCarry (i : CarryMyItemRequestTerms Number (Given Text))
    (o : CarryMyItemRequestTerms ℕ Text) : Type 0 where
  pub item_description : IsText i.item_description o.item_description 3 500
  pub declared_value_idr : IsInteger i.declared_value_idr o.declared_value_idr 1 2_000_000_000
  pub declared_weight_grams : IsCapacity i.declared_weight_grams o.declared_weight_grams
  pub length_millimeters : IsInteger i.length_millimeters o.length_millimeters 1 10_000
  pub width_millimeters : IsInteger i.width_millimeters o.width_millimeters 1 10_000
  pub height_millimeters : IsInteger i.height_millimeters o.height_millimeters 1 10_000
  pub handling_instructions :
      OptionallyTrimsTo i.handling_instructions o.handling_instructions 1 500

abbrev pub Accepts : GivenTerms → NormalTerms → Type 0
Accepts (shop i) (shop o) = AcceptsShop i o
Accepts (carry i) (carry o) = AcceptsCarry i o
Accepts _ _ = ⊥

normal_of_ok : (a b : NormalTerms) → ok a ≡ ok b → a ≡ b
normal_of_ok a b e = cc

shop-Accepts :
    (i : ShopForMeRequestTerms Number (Given Bool) (Given Text)) (out : NormalTerms)
    → normalize_shop i ≡ ok out
    → Accepts (shop i) out
unfolding normalize_shop
shop-Accepts i out h =
    let (t, et, h1) = >>=-eq-ok (bounded_text i.item_description "Item description" 3 500) _ h in
    let (b, eb, h2) =
      >>=-eq-ok (require_boolean i.allow_substitution "Substitution permission") _ h1 in
    let (m, em, h3) =
      >>=-eq-ok (bounded_integer i.maximum_budget_idr "Maximum item budget" 1 2_000_000_000) _ h2 in
    let (q, eq, h4) = >>=-eq-ok (bounded_integer i.quantity "Quantity" 1 100) _ h3 in
    let (c, ec, h5) = >>=-eq-ok (capacity_grams i.requested_capacity_grams) _ h4 in
    let (v, ev, h6) = >>=-eq-ok (optional_text i.variation "Variation" 1 200) _ h5 in
    subst (λ u. Accepts (shop i) u) (normal_of_ok _ out h6)
      (record {
        item_description = (bounded_text_iff _ _ 3 500 t).0 et;
        quantity = (bounded_integer_iff _ _ 1 100 q (omega arith) (omega arith)).0 eq;
        maximum_budget_idr =
            (bounded_integer_iff _ _ 1 2_000_000_000 m (omega arith) (omega arith)).0 em;
        requested_capacity_grams = (capacity_grams_iff _ c).0 ec;
        allow_substitution = (require_boolean_iff _ _ b).0 eb;
        variation = (optional_text_iff _ _ 1 200 v).0 ev;
      })

Accepts-shop :
    (i : ShopForMeRequestTerms Number (Given Bool) (Given Text))
    (o : ShopForMeRequestTerms ℕ Bool Text)
    → AcceptsShop i o
    → normalize_shop i ≡ ok (shop o)
unfolding normalize_shop
Accepts-shop i o a = rw ((bounded_text_iff _ "Item description" 3 500 _).1 a.item_description) (
    rw ((require_boolean_iff _ "Substitution permission" _).1 a.allow_substitution) (
      rw
        ((bounded_integer_iff _ "Maximum item budget" 1 2_000_000_000 _ (omega arith)
            (omega arith)).1
          a.maximum_budget_idr)
        (rw ((bounded_integer_iff _ "Quantity" 1 100 _ (omega arith) (omega arith)).1 a.quantity) (
          rw ((capacity_grams_iff _ _).1 a.requested_capacity_grams)
            (rw ((optional_text_iff _ "Variation" 1 200 _).1 a.variation))))))

carry-Accepts :
    (i : CarryMyItemRequestTerms Number (Given Text)) (out : NormalTerms)
    → normalize_carry i ≡ ok out
    → Accepts (carry i) out
unfolding normalize_carry
carry-Accepts i out h =
    let (t, et, h1) = >>=-eq-ok (bounded_text i.item_description "Item description" 3 500) _ h in
    let (v, ev, h2) =
      >>=-eq-ok (bounded_integer i.declared_value_idr "Declared value" 1 2_000_000_000) _ h1 in
    let (c, ec, h3) = >>=-eq-ok (capacity_grams i.declared_weight_grams) _ h2 in
    let (y, ey, h4) = >>=-eq-ok (bounded_integer i.height_millimeters "Height" 1 10_000) _ h3 in
    let (x, ex, h5) = >>=-eq-ok (bounded_integer i.length_millimeters "Length" 1 10_000) _ h4 in
    let (w, ew, h6) = >>=-eq-ok (bounded_integer i.width_millimeters "Width" 1 10_000) _ h5 in
    let (n, en, h7) =
      >>=-eq-ok (optional_text i.handling_instructions "Handling instructions" 1 500) _ h6 in
    subst (λ u. Accepts (carry i) u) (normal_of_ok _ out h7)
      (record {
        item_description = (bounded_text_iff _ _ 3 500 t).0 et;
        declared_value_idr =
            (bounded_integer_iff _ _ 1 2_000_000_000 v (omega arith) (omega arith)).0 ev;
        declared_weight_grams = (capacity_grams_iff _ c).0 ec;
        length_millimeters = (bounded_integer_iff _ _ 1 10_000 x (omega arith) (omega arith)).0 ex;
        width_millimeters = (bounded_integer_iff _ _ 1 10_000 w (omega arith) (omega arith)).0 ew;
        height_millimeters = (bounded_integer_iff _ _ 1 10_000 y (omega arith) (omega arith)).0 ey;
        handling_instructions = (optional_text_iff _ _ 1 500 n).0 en;
      })

Accepts-carry :
    (i : CarryMyItemRequestTerms Number (Given Text)) (o : CarryMyItemRequestTerms ℕ Text)
    → AcceptsCarry i o
    → normalize_carry i ≡ ok (carry o)
unfolding normalize_carry
Accepts-carry i o a = rw ((bounded_text_iff _ "Item description" 3 500 _).1 a.item_description) (
    rw
      ((bounded_integer_iff _ "Declared value" 1 2_000_000_000 _ (omega arith) (omega arith)).1
        a.declared_value_idr)
      (rw ((capacity_grams_iff _ _).1 a.declared_weight_grams) (
        rw
          ((bounded_integer_iff _ "Height" 1 10_000 _ (omega arith) (omega arith)).1
            a.height_millimeters)
          (rw
            ((bounded_integer_iff _ "Length" 1 10_000 _ (omega arith) (omega arith)).1
              a.length_millimeters)
            (rw
              ((bounded_integer_iff _ "Width" 1 10_000 _ (omega arith) (omega arith)).1
                a.width_millimeters)
              (rw (
                (optional_text_iff _ "Handling instructions" 1 500 _).1
                  a.handling_instructions)))))))

-- Normalisation returns `out` exactly if `out` has the mode of the input, every number is that
-- of the input and every text that of the input trimmed, and all lie within the documented
-- bounds; the capacity is a multiple of ten grams.
pub normalize_iff :
    (input : GivenTerms) (out : NormalTerms)
    → (normalize_order_request_terms input ≡ ok out) ↔ Accepts input out
unfolding normalize_order_request_terms
normalize_iff (shop i) (shop o) = (shop-Accepts i (shop o), Accepts-shop i o)
normalize_iff (shop i) (carry o) = (shop-Accepts i (carry o), λ a. absurd a)
normalize_iff (carry i) (shop o) = (carry-Accepts i (shop o), λ a. absurd a)
normalize_iff (carry i) (carry o) = (carry-Accepts i (carry o), Accepts-carry i o)

-- Normalised terms, handed in again.
abbrev pub again_text : Option Text → Option (Given Text)
again_text none = none
again_text (some t) = some (given t)

abbrev pub again : NormalTerms → GivenTerms
again (shop t) = shop (record {
  item_description = given t.item_description;
  quantity = whole t.quantity;
  maximum_budget_idr = whole t.maximum_budget_idr;
  requested_capacity_grams = whole t.requested_capacity_grams;
  allow_substitution = given t.allow_substitution;
  variation = again_text t.variation;
})
again (carry t) = carry (record {
  item_description = given t.item_description;
  declared_value_idr = whole t.declared_value_idr;
  declared_weight_grams = whole t.declared_weight_grams;
  length_millimeters = whole t.length_millimeters;
  width_millimeters = whole t.width_millimeters;
  height_millimeters = whole t.height_millimeters;
  handling_instructions = again_text t.handling_instructions;
})

trims_again : (value : Given Text) (s : Text) → TrimsTo value s → trim s ≡ s
trims_again (given t) s e = rw (← e) (trim_idem t)
trims_again ill_typed s e = absurd e

optionally_again :
    (value : Option (Given Text)) (s : Option Text) (lo hi : ℕ)
    → OptionallyTrimsTo value s lo hi
    → OptionallyTrimsTo (again_text s) s lo hi
optionally_again none none lo hi h = tt
optionally_again (some v) (some s) lo hi h = (trims_again v s h.0, h.1)
optionally_again none (some s) lo hi h = absurd h
optionally_again (some v) none lo hi h = absurd h

again-Accepts :
    (input : GivenTerms) (out : NormalTerms) → Accepts input out → Accepts (again out) out
again-Accepts (shop i) (shop o) a = record {
  item_description = (
    trims_again i.item_description o.item_description a.item_description.0,
    a.item_description.1,
  );
  quantity = ((omega arith, inl refl), a.quantity.1, a.quantity.2);
  maximum_budget_idr = ((omega arith, inl refl), a.maximum_budget_idr.1, a.maximum_budget_idr.2);
  requested_capacity_grams = (
    (omega arith, inl refl),
    a.requested_capacity_grams.1,
    a.requested_capacity_grams.2,
    a.requested_capacity_grams.3,
  );
  allow_substitution = refl;
  variation = optionally_again i.variation o.variation 1 200 a.variation;
}
again-Accepts (carry i) (carry o) a = record {
  item_description = (
    trims_again i.item_description o.item_description a.item_description.0,
    a.item_description.1,
  );
  declared_value_idr = ((omega arith, inl refl), a.declared_value_idr.1, a.declared_value_idr.2);
  declared_weight_grams = (
    (omega arith, inl refl),
    a.declared_weight_grams.1,
    a.declared_weight_grams.2,
    a.declared_weight_grams.3,
  );
  length_millimeters = ((omega arith, inl refl), a.length_millimeters.1, a.length_millimeters.2);
  width_millimeters = ((omega arith, inl refl), a.width_millimeters.1, a.width_millimeters.2);
  height_millimeters = ((omega arith, inl refl), a.height_millimeters.1, a.height_millimeters.2);
  handling_instructions =
      optionally_again i.handling_instructions o.handling_instructions 1 500
        a.handling_instructions;
}
again-Accepts (shop i) (carry o) a = absurd a
again-Accepts (carry i) (shop o) a = absurd a

-- Normalising what normalisation returned gives it back unchanged.
pub normalize_idem :
    (input : GivenTerms) (out : NormalTerms)
    → normalize_order_request_terms input ≡ ok out
    → normalize_order_request_terms (again out) ≡ ok out
normalize_idem input out h =
    (normalize_iff (again out) out).1 (again-Accepts input out ((normalize_iff input out).0 h))

-- The capacity that a normalised request asks for is a multiple of ten grams, from ten grams to
-- 100 tonnes, in both modes.
pub requested_capacity_bounds :
    (input : GivenTerms) (out : NormalTerms)
    → normalize_order_request_terms input ≡ ok out
    → (10 ≤ requested_capacity_grams out)
      × (requested_capacity_grams out ≤ 100_000_000)
      × (requested_capacity_grams out % 10 ≡ 0)
unfolding requested_capacity_grams
requested_capacity_bounds (shop i) (shop o) h =
    let a = (normalize_iff (shop i) (shop o)).0 h in
    (a.requested_capacity_grams.1, a.requested_capacity_grams.2, a.requested_capacity_grams.3)
requested_capacity_bounds (carry i) (carry o) h =
    let a = (normalize_iff (carry i) (carry o)).0 h in
    (a.declared_weight_grams.1, a.declared_weight_grams.2, a.declared_weight_grams.3)
requested_capacity_bounds (shop i) (carry o) h = absurd ((normalize_iff (shop i) (carry o)).0 h)
requested_capacity_bounds (carry i) (shop o) h = absurd ((normalize_iff (carry i) (shop o)).0 h)
