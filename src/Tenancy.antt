-- ===== src/Tenancy.antt =====
-- backend/src/apps/multitenancy: tenants, their members and the invitations to them.
mod Rows
mod Session
pub mod Access
pub mod Tenants
pub mod Lists
pub mod Members
pub mod Invitations
pub mod Mirror
unfoldable pub use Rows.*
unfoldable pub use Session.*
