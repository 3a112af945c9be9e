-- ===== src/Dashboards.antt =====
-- backend/app/dashboards: who sees a dashboard, and how its cards are laid out.
pub mod Policy
pub mod Grid
pub mod Sizes
pub mod Layout
mod Tests
