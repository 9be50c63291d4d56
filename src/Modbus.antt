-- ===== src/Modbus.antt =====
-- The Modbus TCP client, internal/modbus.
pub mod Protocol
pub mod Client
pub mod Blocks
pub mod Decode
mod Examples
