-- ===== src/Wire.antt =====
-- send_message and recv_message of luncher/server/src/Server.cpp and luncher/client/src/Client.cpp.
pub mod Stream
pub mod Length
pub mod Sending
pub mod Total
pub mod Receiving
pub mod Tests
