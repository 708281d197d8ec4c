-- ===== src/Gateway.antt =====
-- runner_engine/gateway.py: `AccessControl`, and the gRPC handlers of `serve`. A handler runs under
-- the peer's authenticated names; `grpc` itself is outside.
pub mod Access
pub mod Handlers
pub mod Guard
