-- ===== src/ParticleFilter.antt =====
-- The particle filter of cjunk/practice/geoParticleFilter.cc.
pub mod Particle
pub mod Filter
pub mod Resampling
pub mod Futures
mod Tests
