-- ===== src/Composectl.antt =====
-- The app engine that runs `composectl`: src/composeapp/appengine.cc.
pub mod Engine
pub mod Prune
pub mod Status
pub mod Cache
pub mod Reach
