-- ===== src/ModbusServer.antt =====
-- The Modbus TCP server, internal/modbusserver.
pub mod Store
pub mod Words
pub mod Pdu
pub mod Session
mod Examples
