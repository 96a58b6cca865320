-- ===== src/Tmux.antt =====
-- src/tmux: what tmux says on its control connection.
pub mod Line
pub mod Control
mod Tests
