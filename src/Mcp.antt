-- ===== src/Mcp.antt =====
-- The MCP servers: cmd/llama-stack-resource-mcp/main.go offers the client of the daemon as tools,
-- cmd/llama-stack-search-mcp/main.go a search. The MCP library calls the handlers.
pub mod Search
pub mod ResourceTools
