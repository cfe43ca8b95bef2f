-- ===== src/Logger.antt =====
-- Logging: src/Logger/Logger.cc and include/Logger/Logger.h.
pub mod Pattern
pub mod Format
pub mod Loggers
