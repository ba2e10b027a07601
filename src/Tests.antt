-- ===== src/Tests.antt =====
-- Concrete instances of what the program does not implement, tests, and the theorems at concrete
-- inputs.
mod Memory
mod Wire
mod Transactions
mod Keys
mod Queues
mod Runs
mod Writes
mod Intake
mod Counts
mod Kept
mod Survival
mod Reaping
mod Pools
mod Lifecycle
mod Buffers
mod BufferLaws
mod Published
mod Tickers
mod Settings
mod Messages
mod Gates
mod Encoding
mod Throttles
mod Managers
