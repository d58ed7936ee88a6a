-- ===== src/Sockets.antt =====
-- The life of a WebSocket connection (backend/controller/room_ws_controller.go): its epoch in Redis, its
-- opening, its messages, what is sent to a room, and its end.
pub mod Epoch
pub mod Current
pub mod Site
pub mod Open
pub mod Opens
pub mod Receive
pub mod Stale
pub mod Close
pub mod Replaced
pub mod Broadcast
pub mod Reaches
pub mod Sync
pub mod Announce
