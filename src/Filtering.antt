-- ===== src/Filtering.antt =====
-- Noise filtering of log snapshots, src/services/log_filtering.py.
pub mod Extract
pub mod Noise
pub mod Cut
pub mod Candidates
pub mod View
