-- ===== src/Rules.antt =====
-- NativeDNS.Core/src/rules.cpp: names, patterns and rules.
pub mod Names
pub mod Match
pub mod Unicode
pub mod Patterns
pub mod Options
pub mod Validate
pub mod Select
pub mod Evaluate
pub mod Editor
