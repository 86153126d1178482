-- ===== src/Budgets.antt =====
-- The budget counter of src/routeweiler/budgets/.
pub mod Schema
pub mod Errors
pub mod Receipts
pub mod Keystore
pub mod Draw
pub mod Fmv
pub mod Store
