-- ===== src/Tests.antt =====
-- The theorems at concrete inputs.
mod Samples
mod Words
mod Headers
mod Messages
mod Kernel
mod Commands
mod Sessions
mod Lines
mod Lives
mod Clusters
mod Modules
