-- ===== src/Replication.antt =====
-- src/replication.rs: a ring is served to mirrors on other hosts. Codec has the bytes on the wire, Geometry
-- what a mirror needs to make the same ring, Source the reading of the source's ring, Ring the mirror's
-- ring, Mirror the receiving side, and their children what holds of them.
pub mod Bytes
pub mod Frame
pub mod Geometry
mod Action
pub mod Ring
pub mod Mirror
pub mod Source
pub mod Serve
pub mod Copy
mod Examples
