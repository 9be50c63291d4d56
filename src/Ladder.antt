-- ===== src/Ladder.antt =====
-- plc/ladder: the ladder logic of user PLC programs.
pub mod Timer
pub mod Counter
pub mod State
pub mod Element
mod Examples
