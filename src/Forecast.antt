-- ===== src/Forecast.antt =====
-- generator/ProbabilityGenerator.h and .cpp: the products of one forecast time.
pub mod Loops
pub mod Shapes
pub mod Inputs
pub mod Handlers
pub mod Groups
pub mod Work
pub mod Keeps
pub mod Fields
pub mod Swallowed
pub mod Saved
pub mod Ordered
pub mod Temperatures
