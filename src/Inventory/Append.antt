-- ===== src/Inventory/Append.antt =====
-- `Inventory::append` after the array has grown: it makes exactly the next position available.
pub mod Open
pub mod Laws
