-- ===== src/Config.antt =====
-- Configuration: include/Configurator/Configurator.h and src/Configurator/Configurator.cc.
pub mod Cast
pub mod Vars
pub mod Appenders
pub mod Load
mod Tests
