-- ===== src/Analysis.antt =====
-- Analysis of log snapshots, src/services/log_analysis.py.
pub mod Routes
pub mod Activity
pub mod Groups
pub mod Values
pub mod Requests
pub mod Normalize
pub mod Semantics
pub mod Classify
pub mod Sources
pub mod Bundle
pub mod Ingress
pub mod Probes
