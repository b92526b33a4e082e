-- ===== src/Launcher.antt =====
-- The launcher: luncher/client/src/Client.cpp, luncher/server/src/Server.cpp and what they share.
pub mod Config
pub mod Agreement
pub mod Messages
pub mod Client
pub mod Server
pub mod Dispatch
pub mod Restart
pub mod Turns
pub mod Clients
pub mod Session
pub mod Processes
pub mod Accepting
pub mod Overtaken
pub mod Startup
pub mod Started
pub mod Relaunch
pub mod Rounds
pub mod Handling
pub mod Reports
pub mod Replaced
pub mod Welcome
pub mod Status
pub mod Proxies
pub mod Sole
pub mod ProxyTests
pub mod Tests
pub mod SessionTests
pub mod ServerTests
pub mod Sample
pub mod StartTests
