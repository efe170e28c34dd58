-- ===== src/Views.antt =====
-- The slices that say what is shown: store/slices/bannerSlice.ts, searchSlice.ts, mobileSlice.ts
-- and greTunnelsSlice.ts.
pub mod Banner
pub mod Search
pub mod Mobile
pub mod Tunnels
mod Tests
