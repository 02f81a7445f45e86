-- ===== src/Scenarios.antt =====
-- Witnesses: each property at a concrete input.
mod Connections
mod Settings
mod Telemetry
mod Storage
mod Selection
mod Leadership
mod Retention
mod Ingestion
mod Collecting
mod Scheduling
mod Sampling
