-- ===== src/Protocol.antt =====
-- protocol.py
pub mod Tests
pub mod Frame
pub mod Brightness
pub mod Eeprom
pub mod Responses
