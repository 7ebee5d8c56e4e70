-- ===== src/Tiptoe.antt =====
-- The crate scorer-tiptoe: the lattice encryption under its private retrieval.
pub mod Encoding
pub mod Lwe
pub mod SimplePir
pub mod Clusters
pub mod Ranking
pub mod Upload
pub mod Toy
