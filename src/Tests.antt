-- ===== src/Tests.antt =====
-- The theorems at concrete Dags, schedulers and clusters.
mod Samples
mod Scheduling
mod Pods
mod Rounds
mod Lives
mod Operators
mod Copies
mod Connectors
mod Sources
mod Managers
mod Builders
