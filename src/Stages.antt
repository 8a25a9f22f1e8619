-- ===== src/Stages.antt =====
-- core/stages: each stage as a function from the items that its input queue delivers to what it
-- does until it returns or raises. How the queues join the stages is in Queue/Channel.
pub mod Run
pub mod Fetch
pub mod Parse
pub mod Normalize
pub mod Enrich
pub mod Dedup
pub mod Persist
pub mod Publish
mod Tests
