-- ===== src/Cmd.antt =====
-- The command line (cmd/skopos/).
pub mod Fleet
