-- ===== src/EntryType.antt =====
-- src/data_blocks/mod.rs: the two kinds of entry.
pub data DataEntryType : Type 0 where
  put delete : DataEntryType
