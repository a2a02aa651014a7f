-- ===== src/Examples.antt =====
-- Runs of the theorems at concrete packets, names and configurations.
mod Packets
mod Names
mod Rules
mod Services
mod Adapters
mod Router
mod Routes
mod Texts
