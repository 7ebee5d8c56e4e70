-- ===== src/Bntm.antt =====
-- The crate scorer-bntm: Braverman-Newman trapdoored matrices over F_p.
pub mod Field
pub mod Matvec
pub mod Avx512
pub mod Kernel
pub mod Sparse
pub mod Params
pub mod Sampling
pub mod Keys
pub mod Cluster
pub mod Query
pub mod Decode
pub mod Quantise
pub mod Scorer
mod Tests
