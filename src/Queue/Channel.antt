-- ===== src/Queue/Channel.antt =====
-- Two stages joined by a queue: a producer that puts its items and closes, a consumer that iterates
-- until the end of the stream. Either may take the next step whenever it need not wait.
pub mod System
pub mod Delivery
pub mod Progress
