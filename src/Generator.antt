-- ===== src/Generator.antt =====
-- generator/: the values and probabilities that are computed from an ensemble.
pub mod Percentile
pub mod Symbol
pub mod Probable
pub mod Temperature
pub mod Wind
