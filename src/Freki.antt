-- ===== src/Freki.antt =====
-- Freki, the REST backend (freki/src/freki): one child for each router or background task.
pub mod Auth
pub mod Jobs
pub mod Models
pub mod TrainingData
pub mod Rooms
pub mod Daemons
pub mod Labels
pub mod Predictions
