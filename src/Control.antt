-- ===== src/Control.antt =====
-- src/control.c: the authentication of the clients of the control socket.
pub mod Client
pub mod Framing
mod Auth
mod Serving
mod Stream
mod Requests
mod Tests
