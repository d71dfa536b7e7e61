-- ===== src/Tests.antt =====
-- Concrete runs of the model: each property at an input that meets its hypotheses, and tests.
mod Checks
mod Ports
mod Threads
mod Devices
mod WinPorts
mod Paths
mod Contracts
mod WinThreads
mod Streams
mod Numbers
mod Listing
