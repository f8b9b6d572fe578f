-- ===== src/Core/Frames.antt =====
-- Relations between worlds, lifted from the statements of the store to the operations of internal/core.
pub mod Calls
pub mod Applying
pub mod Running
pub mod Histories
