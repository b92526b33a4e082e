-- ===== src/Proxy.antt =====
-- proxy/src/ProxyBase.cpp: from the configuration to the handlers and their threads.
pub mod Base
pub mod Started
pub mod Main
pub mod Served
pub mod Outlived
pub mod Tests
