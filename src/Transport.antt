-- ===== src/Transport.antt =====
-- The RPC handlers: internal/transport/grpc.
pub mod Messages
pub mod Convert
pub mod Handler
pub mod Accepts
pub mod RoundTrip
pub mod Reading
