-- ===== src/Domain.antt =====
-- packages/domain: the framework-free domain model.
pub mod ServiceMode
pub mod Trip
pub mod Offer
pub mod Account
pub mod OrderRequest
