-- ===== src/Fieldbus/Serve.antt =====
-- A whole connection: what it asks of an adapter, and what leaves it.
pub mod Outputs
pub mod Events
pub mod Whole
pub mod Brand
