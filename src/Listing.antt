-- ===== src/Listing.antt =====
-- The queries on the whole table of license statuses: what the counts and the pages say.
pub mod Counts
pub mod Order
pub mod Pages
