-- ===== src/Effects.antt =====
-- How a handler runs: a session over the database that a request may roll back, the cache and the
-- clock outside it, and the errors that end it.
mod Monad
mod Outside
mod Session
unfoldable pub use Monad.*
unfoldable pub use Outside.*
unfoldable pub use Session.*
