-- ===== src/Domain/OrderRequest/Tests.antt =====
-- Runs of `normalizeOrderRequestTerms`, and examples of what is proved of it.
use nitip_cuy.Prelude.{◌≡◌, ◌↔◌, refl, true, false, some}
use nitip_cuy.Text.{lit}
use nitip_cuy.Text.Chars.{is_space}
use nitip_cuy.Text.Trim.{trim}
use nitip_cuy.Number.{decimal, whole}
use nitip_cuy.Failure.{ok, err, domain_validation, fixed}
use nitip_cuy.Domain.OrderRequest.{
  given, GivenTerms, NormalTerms, shop, bounded_integer, capacity_grams, require_boolean,
  bounded_text, optional_text, normalize_order_request_terms,
}
use nitip_cuy.Domain.OrderRequest.Exact.{Accepts, again, normalize_iff, normalize_idem}

abbrev tea : GivenTerms
tea = shop (record {
  item_description = given (lit " green tea ");
  quantity = whole 2;
  maximum_budget_idr = decimal false 1500000 1;
  requested_capacity_grams = whole 1500;
  allow_substitution = given true;
  variation = some (given (lit "loose leaf"));
})

abbrev normal_tea : NormalTerms
normal_tea = shop (record {
  item_description = lit "green tea";
  quantity = 2;
  maximum_budget_idr = 150000;
  requested_capacity_grams = 1500;
  allow_substitution = true;
  variation = some (lit "loose leaf");
})

tea_accepted : normalize_order_request_terms tea ≡ ok normal_tea
unfolding normalize_order_request_terms bounded_text trim is_space require_boolean bounded_integer
    capacity_grams optional_text
tea_accepted = refl

odd_capacity :
    capacity_grams (whole 1505)
    ≡ err (domain_validation (fixed "Requested capacity must use exact 10-gram increments."))
unfolding capacity_grams bounded_integer
odd_capacity = refl

normalize_iff_example : (normalize_order_request_terms tea ≡ ok normal_tea) ↔ Accepts tea normal_tea
normalize_iff_example = normalize_iff tea normal_tea

normalize_idem_example : normalize_order_request_terms (again normal_tea) ≡ ok normal_tea
normalize_idem_example = normalize_idem tea normal_tea tea_accepted
