-- ===== src/Udp.antt =====
-- proxy/inc/UDPConnection.hpp, proxy/inc/UDPHandler.hpp and proxy/src/UDPHandler.cpp.
pub mod Connection
pub mod Ports
pub mod Route
pub mod Replies
pub mod Sockets
pub mod Opened
pub mod Sides
pub mod Routed
pub mod Leaked
pub mod Threads
pub mod Payload
pub mod Forward
pub mod Serving
pub mod Loops
pub mod Kept
pub mod Directed
pub mod Tests
pub mod SocketTests
