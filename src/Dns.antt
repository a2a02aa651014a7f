-- ===== src/Dns.antt =====
-- NativeDNS.Core/src/dns_packet.cpp: DNS messages on the wire.
pub mod Wire
pub mod Query
pub mod Response
pub mod Answer
pub mod Ttl
pub mod Certificate
