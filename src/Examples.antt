-- ===== src/Examples.antt =====
-- The theorems at concrete inputs, and runs of the operations: one child for what is on the wire,
-- one for the containers, one for the configuration, one for the driver with the start and the stop
-- of a process, and three for the handlers, the calls and the core thread, with the processes that
-- they run in.
mod Wire
mod Tables
mod Process
mod Runs
mod Calls
mod Senders
mod Settings
mod Driving
