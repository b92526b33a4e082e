-- ===== src/Config.antt =====
-- The proxy's configuration: proxy/lib/ConfigurationManager.hpp and ConfigurationManager.cpp.
pub mod Yaml
pub mod Steps
pub mod Entity
pub mod Manager
pub mod Parsed
pub mod Sample
pub mod Tests
