-- ===== src/Resource.antt =====
-- internal/resource: the leases of host ports, their database and the proxies that forward them.
pub mod Types
pub mod Proxy
pub mod Store
pub mod Manager
