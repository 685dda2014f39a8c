-- ===== src/Examples.antt =====
-- The development's theorems at concrete inputs, on one small market.
pub mod Data
pub mod Money
pub mod Refunding
pub mod Orders
pub mod Shopping
pub mod Helpdesk
pub mod Limits
pub mod Shops
pub mod SignIn
pub mod Deliveries
pub mod Assignments
