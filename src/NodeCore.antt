-- ===== src/NodeCore.antt =====
-- packages/node-core/src: the services of a node. The continuity of feeds is below.
pub mod FeedForks
