-- ===== src/Player.antt =====
-- Server/Player.cpp, class `CPlayer`: the level that goes with a number of points, the resources, and what the
-- two timers of a player do.
pub mod Level
pub mod Pow
pub mod Check
pub mod Timers
