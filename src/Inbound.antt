-- ===== src/Inbound.antt =====
-- The inbound surfaces: src/steadystate/inbound.
pub mod Grammar
pub mod Translate
pub mod Server
pub mod Mcp
