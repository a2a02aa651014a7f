-- ===== src/Router.antt =====
-- NativeDNS.Core/src/router.cpp: the path of a query through the router.
pub mod Cache
pub mod Group
pub mod Exchange
pub mod Route
