-- ===== src/Vm.antt =====
-- The inner interpreter of vm.c, one module for each family of instructions.
pub mod Check
pub mod Shuffle
pub mod Compute
pub mod Access
pub mod Control
pub mod Jumps
