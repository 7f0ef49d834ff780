-- ===== src/Client.antt =====
-- client/: the parts of the client that decide.
pub mod States
pub mod Application
pub mod Editor
