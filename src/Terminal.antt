-- ===== src/Terminal.antt =====
-- internal/tui: the terminal interface, without its rendering by lipgloss. The modules below model
-- the first-time setup, the operator's screen and what it computes to show.
pub mod Helpers
pub mod Layout
pub mod Setup
pub mod Stats
pub mod Tables
pub mod Screen
pub mod Update
mod Tests
