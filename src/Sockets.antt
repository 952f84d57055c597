-- ===== src/Sockets.antt =====
-- backend/src/apps/websocket: the connections of users, the rooms they are in, and the encrypted
-- frames they are sent.
mod Messages
pub mod Crypto
pub mod Manager
pub mod Handler
unfoldable pub use Messages.*
