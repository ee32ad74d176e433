-- ===== src/Persist.antt =====
-- libmachine/persist and libmachine/host/migrate.go: the store of machines.
pub mod Stored
pub mod Hosts
pub mod Filestore
pub mod SaveToFile
pub mod SaveFine
pub mod Migration
pub mod Loading
pub mod Removal
pub mod Machines
pub mod Represents
pub mod Saving
pub mod Refinement
