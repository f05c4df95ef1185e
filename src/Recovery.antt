-- ===== src/Recovery.antt =====
-- manager/backup_restore.py: backups of the platform and their restores.
pub mod Types
pub mod Store
pub mod Service
pub mod World
pub mod Worker
pub mod Loops
pub mod Progress
pub mod Backup
pub mod Restoring
pub mod Return
pub mod Restore
pub mod Requests
pub mod Histories
mod Samples
