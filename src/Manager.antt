-- ===== src/Manager.antt =====
-- manager/: the program that schedules services on workers.
pub mod Pod
pub mod Core
pub mod Calls
pub mod Asking
pub mod Creation
pub mod Loss
pub mod Forgotten
pub mod GivenUp
pub mod Log
pub mod Replay
pub mod Stops
pub mod Telling
pub mod Stopping
pub mod Checks
pub mod Checking
pub mod Exits
pub mod Nodes
pub mod Rebinding
pub mod TakenName
pub mod Starting
pub mod Moving
pub mod Transfers
pub mod Service
pub mod Registry
pub mod Naming
pub mod Hung
pub mod Deletion
pub mod Restarts
pub mod Collision
pub mod SnapshotFile
pub mod Saved
pub mod Restored
pub mod Reading
pub mod Recover
pub mod Startable
pub mod Starts
pub mod Steps
pub mod Logged
pub mod Rerun
pub mod Recovery
pub mod Scheduler
pub mod RoundRobin
pub mod NginxProxy
pub mod NginxConf
pub mod Ports
mod Runs
mod PodRuns
mod RecoverRuns
mod Tests
