-- ===== src/Policy.antt =====
-- policy/: the deterministic policy. `Config` is policy/config.py; `Quiet`, `Engine` and `Evaluate`
-- are policy/engine.py.
pub mod Config
pub mod Quiet
pub mod Engine
pub mod Evaluate
mod Samples
