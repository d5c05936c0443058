-- ===== src/Export.antt =====
-- src/business/organisation-content-export.ts: the tables of an organisation's content, how their
-- rows hang together, and the check made before they are sent.
pub mod Keys
pub mod Confine
pub mod Tables
pub mod Columns
pub mod Ties
pub mod Closed
pub mod Translated
