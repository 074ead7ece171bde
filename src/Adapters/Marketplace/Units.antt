-- ===== src/Adapters/Marketplace/Units.antt =====
-- Grams and the `DECIMAL(8,2)` columns of kilograms: what order terms ask for can be stored, and
-- is read back as it was.
use nitip_cuy.Prelude.{ℕ, ◌*◌, ◌/◌, ◌%◌, ◌≤◌, ◌≡◌, arith}
use nitip_cuy.Failure.{ok}
use nitip_cuy.Domain.OrderRequest.{
  GivenTerms, NormalTerms, normalize_order_request_terms, requested_capacity_grams,
}
use nitip_cuy.Domain.OrderRequest.Exact.{requested_capacity_bounds}
use nitip_cuy.Adapters.Marketplace.{grams_to_decimal_kilograms, decimal_kilograms_to_grams}

to_decimal :
    (grams : ℕ)
    → 10 ≤ grams
    → grams ≤ 100_000_000
    → grams % 10 ≡ 0
    → grams_to_decimal_kilograms grams ≡ ok (grams / 10)
unfolding grams_to_decimal_kilograms
to_decimal grams low high tens = ground arith

to_grams :
    (grams : ℕ)
    → grams ≤ 100_000_000
    → grams % 10 ≡ 0
    → decimal_kilograms_to_grams (grams / 10) ≡ ok grams
unfolding decimal_kilograms_to_grams
to_grams grams high tens = let e : grams / 10 * 10 ≡ grams = omega arith in rw e (ground arith)

-- The capacity that normalized terms ask for can be stored, and what is stored is read back as the
-- same number of grams.
pub requested_capacity_roundtrip :
    (input : GivenTerms) (terms : NormalTerms)
    → normalize_order_request_terms input ≡ ok terms
    → (units : ℕ) × (grams_to_decimal_kilograms (requested_capacity_grams terms) ≡ ok units)
      × (decimal_kilograms_to_grams units ≡ ok (requested_capacity_grams terms))
requested_capacity_roundtrip input terms h =
    let (low, high, tens) = requested_capacity_bounds input terms h in
    (
      requested_capacity_grams terms / 10,
      to_decimal (requested_capacity_grams terms) low high tens,
      to_grams (requested_capacity_grams terms) high tens,
    )
