-- ===== src/Tctools.antt =====
-- pkg/tctools: the bandwidth that a pod is limited to, and the objects that limit it.
pub mod Bandwidth
pub mod Shaping
mod Tests
