-- ===== src/Manifest.antt =====
-- src/manifest.rs: the metadata of the database, and for each level a file with the sorted identifiers
-- of its tables. A map of a file into memory is the file's bytes.
pub mod LevelMetadata
pub mod Ids
pub mod Bytes
pub mod Changes
pub mod Tables
pub mod TableSets
pub mod Refines
pub mod Metadata
pub mod Counters
pub mod Tests
