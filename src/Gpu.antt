-- ===== src/Gpu.antt =====
-- The crate scorer-gpu-common: the store of device-resident clusters.
pub mod Store
