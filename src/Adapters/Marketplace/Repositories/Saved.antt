-- ===== src/Adapters/Marketplace/Repositories/Saved.antt =====
-- What saving a trip does to the rows of the database: no update is lost.
use nitip_cuy.Prelude.{ℕ, ◌≡◌, ◌∙◌, refl, sym, Bool, true, false, not, List, [], ◌∷◌, ◌==◌, arith}
use nitip_cuy.Text.{truthy}
use nitip_cuy.Number.{Number}
use nitip_cuy.Failure.{Result, ok, ok_path, after_bind, throw_if-eq-ok}
use nitip_cuy.Platform.{Platform}
use nitip_cuy.Transaction.{
  after_part, after_lift, lift-eq-ok, reads, reads-eq-ok, writes, writes-eq-ok,
}
use nitip_cuy.Domain.Offer.{TripOffer}
use nitip_cuy.Adapters.Marketplace.{TripRow, Database}
use nitip_cuy.Adapters.Marketplace.Writing.{trip_row, date_only, date_column, optional_date}
use nitip_cuy.Adapters.Marketplace.Orders.{count_matching, update_matching}
use nitip_cuy.Adapters.Marketplace.Repositories.{is_expected_version, save_offer}

-- No row fits any more, if what the rows that fit become does not.
none_fits :
    {Row : Type 0} (fits : Row → Bool) (row : Row) (rows : List Row)
    → fits row ≡ false
    → count_matching fits (update_matching fits (λ old. row) rows) ≡ 0
unfolding count_matching update_matching
none_fits {Row} fits row [] unfit = refl
none_fits {Row} fits row (other ∷ rows) unfit =
    let rest = none_fits fits row rows unfit in ground arith

module _ (p : Platform) (decimal_column : Number → Result ℕ) where
  -- The row that is written of an offer has its identifier and version.
  trip_row_key :
      (offer : TripOffer) (row : TripRow)
      → trip_row p decimal_column offer ≡ ok row
      → (row.id ≡ offer.id) × (row.version ≡ offer.version)
  unfolding trip_row
  trip_row_key offer row h =
      after_bind (date_only p offer.schedule.departure_date) _ h λ date e1 h1.
        after_bind (date_column p offer.schedule.departure_at) _ h1 λ departure e2 h2.
          after_bind (date_column p offer.schedule.estimated_arrival_at) _ h2 λ arrival e3 h3.
            after_bind (optional_date p (truthy offer.published_at)) _ h3 λ published e4 h4.
              after_bind (decimal_column offer.schedule.remaining_capacity_kg) _ h4
                λ capacity e5 h5.
                  after_bind (date_column p offer.schedule.request_deadline) _ h5 λ deadline e6 h6.
                    after_bind (date_column p offer.schedule.request_open_at) _ h6 λ opens e7 h7.
                      after_bind (date_column p offer.schedule.service_window_end_at) _ h7
                        λ window_end e8 h8.
                          after_bind (date_column p offer.schedule.service_window_start_at) _ h8
                            λ start e9 h9. let same = ok_path h9 in (rw same refl, rw same refl)

  -- The row that is written does not have the version that was expected.
  row_is_new :
      (offer : TripOffer) (row : TripRow) (expected : ℕ)
      → trip_row p decimal_column offer ≡ ok row
      → (offer.version == expected) ≡ false
      → is_expected_version offer expected row ≡ false
  row_is_new offer row expected written raised =
      let (same_id, same_version) = trip_row_key offer row written in rw same_version (ground arith)

  -- A trip that was saved with another version than the one that was expected cannot be saved by
  -- another command that expects that version too: the second update is refused, not lost.
  pub saved_once :
      (offer other : TripOffer) (expected : ℕ) (before after : Database)
      → save_offer p decimal_column offer expected before ≡ ok (tt, after)
      → (offer.version == expected) ≡ false
      → other.id ≡ offer.id
      → ¬ ((later : Database) × (save_offer p decimal_column other expected after ≡ ok (tt, later)))
  unfolding save_offer
  saved_once offer other expected before after h raised same (later, h') =
      after_lift (trip_row p decimal_column offer) _ before h λ row e1 h1.
        after_part (reads _) _ before h1 λ count s2 e2 h2.
          after_part (writes _) _ s2 h2 λ u3 s3 e3 h3.
            after_lift (trip_row p decimal_column other) _ after h' λ row' e4 h4.
              after_part (reads _) _ after h4 λ count' s5 e5 h5.
                after_part (writes _) _ s5 h5 λ u6 s6 e6 h6.
                  let one = throw_if-eq-ok _ _ (lift-eq-ok _ s6 later tt h6).0 in
                  let counted = (reads-eq-ok _ after s5 count' e5).0 in
                  let kept = (reads-eq-ok _ before s2 count e2).1 in
                  let written = (lift-eq-ok _ s3 after tt h3).1 ∙ writes-eq-ok _ s2 s3 u3 e3 in
                  let saved : after.trips
                      ≡ update_matching (is_expected_version offer expected) (λ old. row)
                          before.trips =
                    rw (written, kept) refl in
                  let none_left : count_matching (is_expected_version other expected) after.trips
                      ≡ 0 =
                    rw (saved, same)
                      (none_fits (is_expected_version offer expected) row before.trips
                        (row_is_new offer row expected e1 raised)) in
                  let not_one : not (count' == 1) ≡ true = rw (sym counted, none_left) refl in
                  absurd (ground arith)
