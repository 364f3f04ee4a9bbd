-- ===== src/Client.antt =====
-- The parts of luca/client that are modelled.
pub mod Blocks
pub mod OpenAi
pub mod Streamer
