-- ===== src/Adapters/Marketplace/Rows.antt =====
-- The rows of the database of packages/adapters/src/prisma-marketplace.ts, as far as the use cases
-- read and write them.
--
-- A timestamp column holds an instant. A `DECIMAL(8,2)` column of kilograms holds hundredths of a
-- kilogram, which are units of ten grams. Check constraints of the schema are not modelled.
use nitip_cuy.Prelude.{ℕ, Bool, Option, List}
use nitip_cuy.Text.{Text}
use nitip_cuy.Domain.ServiceMode.{ServiceMode}
use nitip_cuy.Domain.Offer.{TripOfferStatus, JastipperPublicTerms}
use nitip_cuy.Domain.Account.{AccountStatus, AssuranceLevel, Capability}
use nitip_cuy.Application.Marketplace.{AuditRecord, OutboxMessage}
use nitip_cuy.Application.Marketplace.Repositories.{Decision}

pub record TripRow : Type 0 where
  pub id : Text
  pub owner_account_id : Text
  pub jastipper_profile_id : Text
  pub status : TripOfferStatus
  pub version : ℕ
  pub origin_label : Text
  pub origin_time_zone : Text
  pub destination_label : Text
  pub destination_time_zone : Text
  pub service_window_start_at : ℕ
  pub service_window_end_at : ℕ
  pub departure_date : ℕ
  pub departure_at : ℕ
  pub request_open_at : ℕ
  pub request_deadline : ℕ
  pub estimated_arrival_at : ℕ
  pub service_modes : List ServiceMode
  pub remaining_capacity : ℕ
  pub moderation_reason : Option Text
  pub published_at : Option ℕ

-- The columns of a request's terms: those of the other mode are null.
pub data StoredTerms : Type 0 where
  -- item, quantity, budget, substitution, variation
  shop_columns : Text → ℕ → ℕ → Bool → Option Text → StoredTerms
  -- item, value, weight, length, width, height, handling
  carry_columns : Text → ℕ → ℕ → ℕ → ℕ → ℕ → Option Text → StoredTerms

pub record OrderRow : Type 0 where
  pub id : Text
  pub trip_id : Text
  pub customer_account_id : Text
  pub seller_account_id : Text
  pub jastipper_profile_id : Text
  pub source_offer_version : ℕ
  pub reserved_capacity : ℕ
  pub terms : StoredTerms
  pub origin_label : Text
  pub destination_label : Text
  pub order_open_at : ℕ
  pub order_close_at : ℕ
  pub transport_departure_at : ℕ
  pub estimated_arrival_at : ℕ
  pub submitted_at : ℕ

pub record SubmissionRow : Type 0 where
  pub customer_account_id : Text
  pub key_digest : Text
  pub fingerprint : Text
  pub request_id : Text
  pub completed_at : ℕ
  pub expires_at : ℕ

pub record AccountRow : Type 0 where
  pub id : Text
  pub status : AccountStatus
  pub display_name : Text
  pub session_version : ℕ

pub record ProfileRow : Type 0 where
  pub id : Text
  pub account_id : Text
  pub is_active : Bool
  pub terms : JastipperPublicTerms

pub record SessionRow : Type 0 where
  pub id : Text
  pub account_id : Text
  pub assurance : AssuranceLevel
  pub is_active : Bool
  pub account_session_version : ℕ
  pub idle_expires_at : ℕ
  pub absolute_expires_at : ℕ

pub record IdentityRow : Type 0 where
  pub id : Text
  pub account_id : Text
  pub provider : Text
  pub issuer : Text
  pub subject : Text
  pub email_verified : Bool
  pub assurance : AssuranceLevel
  pub last_authenticated_at : ℕ

pub record CapabilityRow : Type 0 where
  pub account_id : Text
  pub capability : Capability

pub record DecisionRow : Type 0 where
  pub id : Text
  pub trip_id : Text
  pub moderator_account_id : Text
  pub decision : Decision
  pub reason_code : Text
  pub created_at : ℕ

pub record QuestionRow : Type 0 where
  pub id : Text
  pub trip_id : Text
  pub author_account_id : Text
  pub author_display_name : Text
  pub message : Text
  pub is_visible : Bool
  pub created_at : ℕ

pub record AnswerRow : Type 0 where
  pub id : Text
  pub question_id : Text
  pub author_account_id : Text
  pub author_display_name : Text
  pub message : Text
  pub is_visible : Bool
  pub created_at : ℕ

pub record Database : Type 0 where
  pub trips : List TripRow
  pub orders : List OrderRow
  pub submissions : List SubmissionRow
  pub accounts : List AccountRow
  pub profiles : List ProfileRow
  pub sessions : List SessionRow
  pub audit : List AuditRecord
  pub outbox : List OutboxMessage
  pub identities : List IdentityRow
  pub capabilities : List CapabilityRow
  pub decisions : List DecisionRow
  pub questions : List QuestionRow
  pub answers : List AnswerRow
