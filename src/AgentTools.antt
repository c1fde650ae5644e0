-- ===== src/AgentTools.antt =====
-- cmd/llama-stack-agent-tools/main.go: the tool service in front of the toolbox containers.
pub mod Output
pub mod Workspace
pub mod Service
pub mod Access
pub mod Authorization
mod Tests
