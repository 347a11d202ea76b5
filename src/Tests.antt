-- ===== src/Tests.antt =====
-- Runs of the models on small inputs, and the theorems at such inputs.
mod Samples
mod Transfers
mod Requests
mod Filtering
mod Grep
mod Analysis
mod Snapshots
mod Access
mod Probes
mod Lines
mod Incidents
mod Fail2ban
