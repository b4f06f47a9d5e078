-- ===== src/Safe.antt =====
-- safe: pools of goroutines, which stop and start together.
pub mod Pool
