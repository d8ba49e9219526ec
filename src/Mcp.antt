-- ===== src/Mcp.antt =====
-- The MCP server: crates/perseval-mcp/src. `Cursor` is cursor.rs.
pub mod Cursor
mod Tests
