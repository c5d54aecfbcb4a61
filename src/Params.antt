-- ===== src/Params.antt =====
-- src/params.rs: the parameters of a database and their defaults. A path is its text.
use lsm_rs.Prelude.{ℕ, ◌*◌, Option, none, some, String}

pub record Params : Type 0 where
  pub db_path : String
  pub max_memtable_size : ℕ
  pub num_levels : ℕ
  pub max_open_files : ℕ
  pub max_key_block_size : ℕ
  pub block_restart_interval : ℕ
  pub log_level_stats : Option String
  pub compaction_concurrency : ℕ
  pub seek_based_compaction : Option ℕ

-- `Params::default`
abbrev pub default_params : Params
default_params = record {
  db_path = "./storage.lsm";
  max_memtable_size = 5 * 1024 * 1024;
  num_levels = 5;
  max_open_files = 1000000;
  max_key_block_size = 512;
  block_restart_interval = 16;
  log_level_stats = none;
  compaction_concurrency = 4;
  seek_based_compaction = some 10;
}
