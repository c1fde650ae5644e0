-- ===== src/Render.antt =====
-- internal/render/render.go: the files that the services of the stack are configured by.
pub mod Units
pub mod Quadlets
pub mod Json
pub mod Writing
pub mod Plan
pub mod Refinement
pub mod Kept
pub mod Services
mod Tests
