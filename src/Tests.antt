-- ===== src/Tests.antt =====
-- Concrete states, and theorems at them.
mod Scene
mod Authority
mod Grants
mod Messages
mod Regions
mod Times
mod Runs
mod Predictions
mod Histories
mod Worlds
