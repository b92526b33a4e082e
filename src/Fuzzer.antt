-- ===== src/Fuzzer.antt =====
-- proxy/inc/Fuzzer.hpp and proxy/src/Fuzzer.cpp: the class FuzzerCore.
pub mod Memory
pub mod Access
pub mod Core
pub mod Normalize
pub mod Yields
pub mod Radamsa
pub mod Posts
pub mod Limits
pub mod Whole
pub mod Parts
pub mod Full
pub mod Repeats
pub mod Tests
pub mod Args
pub mod Fill
pub mod Modes
