-- ===== src/Network.antt =====
-- The network component: include/flashptp/network and src/flashptp/network.
pub mod Address
pub mod Interface
pub mod Inventory
pub mod Stamps
pub mod Send
pub mod Recv
