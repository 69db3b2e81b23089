-- ===== src/Attribution.antt =====
-- experiments/mcp/attribute.py: causal context rebuilt from ordered runtime markers and traced
-- system calls.
pub mod Types
pub mod RpcIds
pub mod Runtime
pub mod Ipc
pub mod Work
pub mod Markers
pub mod Args
pub mod Descriptors
pub mod Syscalls
pub mod Rows
pub mod Trace
pub mod Bind
pub mod Validate
pub mod Run
pub mod Mapping
pub mod Initialize
