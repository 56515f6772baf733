-- ===== src/Tests.antt =====
-- Runs of the model on concrete inputs.
mod Queue
mod Memory
mod Fixtures
mod Recording
mod Routing
mod Writing
mod Events
mod Running
mod Consumers
mod Whole
mod Contents
mod Executables
mod Fake
mod Unit
