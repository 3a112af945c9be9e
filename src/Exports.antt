-- ===== src/Exports.antt =====
-- backend/app/exports: results as comma-separated text.
pub mod Csv
mod Tests
