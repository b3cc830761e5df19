-- ===== src/Demo.antt =====
-- The demo demos/processes-communicating-through-pipes.c, a client of the library: two processes with
-- a loop each hold a dialogue through two pipes.
pub mod System
pub mod Messages
pub mod Setup
pub mod Transfer
pub mod Pair
pub mod Station
pub mod Master
pub mod Slave
pub mod Processes
pub mod Allocation
pub mod Failures
pub mod Dialogue
pub mod Exit
pub mod Reset
pub mod BrokenPipe
pub mod Cleanup
pub mod ParentProcess
pub mod Unreadable
pub mod ChildProcess
pub mod Samples
mod Tests
