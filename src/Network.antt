-- ===== src/Network.antt =====
-- NativeDNS.Core/src/network.cpp and the address functions of the platform layer.
pub mod Endpoint
pub mod Interfaces
