-- ===== src/Config.antt =====
-- Protocol_Bridge/src/config.c: what a new configuration file changes (config_loader, from the
-- reading on), and how the array of bridges is brought in line with it (config_executer).
pub mod Merge
pub mod Apply
pub mod Marks
pub mod Ids
pub mod Listed
pub mod Removal
pub mod Applied
pub mod Entries
pub mod Reload
mod Tests
