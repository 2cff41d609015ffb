-- ===== src/Tests.antt =====
-- The code on concrete inputs.
mod Sorting
mod Store
mod Bundles
mod Hashes
mod Requests
mod Serving
mod Arguments
mod Program
mod Contexts
mod Reads
mod Runs
mod Builds
mod Database
mod Fields
mod Workers
mod Messages
mod Deliveries
mod Servers
