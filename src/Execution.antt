-- ===== src/Execution.antt =====
-- luncher/utils/ExecutionManager.cpp: how the launchers start a process.
pub mod Decimal
pub mod Launch
pub mod Command
pub mod Tests
