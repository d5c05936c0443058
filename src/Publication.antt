-- ===== src/Publication.antt =====
-- src/business/curriculum-publication.ts and src/business/published-content.ts: a curriculum's
-- payload, the publications that are kept of it, and what learners are served.
pub mod Payload
pub mod Hashes
pub mod Changes
pub mod Shelf
pub mod Reading
pub mod Publish
pub mod Order
pub mod Sound
pub mod Kept
pub mod Retention
pub mod Turns
pub mod Reads
pub mod Runs
pub mod Closed
pub mod Deletes
pub mod Reach
pub mod Merge
pub mod Sets
pub mod States
pub mod Latest
pub mod Shown
pub mod MadeOf
pub mod Merged
pub mod Taken
pub mod Sent
pub mod Copies
pub mod Served
