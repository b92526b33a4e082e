-- ===== src/Tcp.antt =====
-- proxy/src/TCPConnection.cpp: the thread that relays one direction of a TCP connection.
pub mod Relay
pub mod Printed
pub mod Relayed
pub mod Streams
pub mod Tests
pub mod Channel
pub mod Listen
pub mod Distinct
pub mod Reached
pub mod Failures
pub mod Rounds
pub mod ListenTests
