-- ===== src/Examples.antt =====
-- The code on a small ensemble, and each theorem at a concrete input.
mod Ensemble
mod Containers
mod Percentiles
mod Symbols
mod Values
mod Forecasts
mod Times
mod Files
mod Fields
mod Writing
mod Program
mod Visits
mod Temperatures
