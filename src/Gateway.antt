-- ===== src/Gateway.antt =====
-- The SSH gateway, services/ssh-gateway/src: which destinations it connects to, how often a client
-- may present a ticket, and how a terminal session runs and ends.
pub mod Address
pub mod Policy
pub mod Destination
pub mod Tickets
pub mod Ssh
pub mod Terminal
