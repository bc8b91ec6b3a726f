-- ===== src/Mcp.antt =====
-- The verification gateway in front of an MCP server (mcp).
pub mod Values
pub mod Schema
pub mod Encoding
pub mod Headers
pub mod Tools
pub mod Catalog
pub mod Server
pub mod Calls
pub mod Gateway
