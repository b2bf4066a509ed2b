-- ===== src/Tests.antt =====
-- Concrete inputs: the doubles as fixed-point numbers, and the theorems applied to small runs.
pub mod Fixed
pub mod Inputs
mod Book
mod Trading
mod Metrics
mod Tape
mod Log
mod Ring
mod Pool
mod Synthetic
mod Apps
mod Program
mod Feed
