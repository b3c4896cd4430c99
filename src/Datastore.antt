-- ===== src/Datastore.antt =====
-- The package datastore: Redis, the builders' bids, the auction, what was delivered.
pub mod Server
pub mod Assoc
pub mod Delivered
pub mod Latest
pub mod Reading
pub mod Always
pub mod Auction
pub mod Pipeline
pub mod Bids
pub mod Keys
