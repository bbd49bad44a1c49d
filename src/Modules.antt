-- ===== src/Modules.antt =====
-- clueapi/modules: the modules that an application may switch on.
pub mod Dotenv
pub mod Logging
