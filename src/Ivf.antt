-- ===== src/Ivf.antt =====
-- The crate ivf-index: the inverted-file index, its training, its probing and its file format.
pub mod Index
pub mod Codec
pub mod Probe
pub mod Kmeans
pub mod Build
pub mod Batch
pub mod Distance
pub mod Toy
mod Tests
