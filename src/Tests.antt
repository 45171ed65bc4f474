-- ===== src/Tests.antt =====
-- Examples of the theorems at concrete inputs, by the part of the program that they are about.
mod Paired
mod Limited
mod Named
mod Approved
mod Allowed
mod Placed
mod Scheduled
mod Served
mod Wrapped
mod Retried
mod Stored
mod Executed
mod Kept
mod Chunked
mod Configured
mod Streamed
mod Registered
