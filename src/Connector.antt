-- ===== src/Connector.antt =====
-- connectors/opcua/connector.py: the process that Telegraf runs beside one OPC UA server.
pub mod Config
pub mod Emitter
pub mod Health
pub mod Handed
pub mod Sequence
pub mod Run
pub mod Tests
