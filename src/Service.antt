-- ===== src/Service.antt =====
-- The parts of NativeDNS.Core that carry requests: the worker pool and the frames of the host's pipe.
pub mod Executor
pub mod IpcWire
pub mod Pool
