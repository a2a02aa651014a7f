-- ===== src/Config.antt =====
-- NativeDNS.Core/src/config.cpp: the configuration's XML.
pub mod Xml
pub mod Parser
pub mod Values
