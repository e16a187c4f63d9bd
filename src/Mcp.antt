-- ===== src/Mcp.antt =====
-- The MCP registry, src/infrastructure/mcp_registry.rs: the endpoints of the tools, the record of
-- warmed connections, the counters of the calls, and the scan of a request body for a tool's name.
-- The clock, the network and the environment variable are arguments.
mod Examples
pub mod Scan
pub mod Registry
pub mod Client
