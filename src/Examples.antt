-- ===== src/Examples.antt =====
-- The theorems at concrete inputs.
mod Stores
mod Links
mod Ports
mod Containers
mod Names
mod Messages
mod Services
mod Requests
mod Policies
mod Lists
mod Metrics
mod Tokens
mod Partitions
