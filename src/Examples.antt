-- ===== src/Examples.antt =====
-- Concrete runs of the definitions, and the theorems applied to them.
pub mod Disk
pub mod Operations
pub mod Recovering
pub mod Trusted
pub mod Verdicts
pub mod Configurations
pub mod ConsoleRuns
pub mod Cores
pub mod Accounts
pub mod Stopping
pub mod Listening
pub mod Managed
pub mod RuleFiles
