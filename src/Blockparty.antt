-- ===== src/Blockparty.antt =====
-- src/services/blockparty.service.ts: parties that share the reward of rented hashpower.
pub mod Store
pub mod Checks
pub mod Service
pub mod Membership
pub mod Consent
pub mod Life
pub mod Routes
pub mod Blocks
pub mod Selects
pub mod Tables
pub mod Calls
pub mod Granted
pub mod Ready
pub mod Agreed
pub mod MembersAgreed
pub mod Consents
pub mod Backed
pub mod Consented
pub mod Joined
pub mod Edits
pub mod Consenting
pub mod Agreement
pub mod Writes
pub mod Refines
pub mod MembersRefine
pub mod Refinement
pub mod Lifecycle
pub mod Unique
pub mod Frozen
pub mod Routing
pub mod Cached
pub mod Routed
pub mod Progress
pub mod Paid
pub mod Tests
