-- ===== src/Anvil.antt =====
-- src/fm_robot_agent/anvil.py: the Anvil workcell's configuration. `World` is the host that the
-- agent runs on, `Pair` the paired write, `Severing` the guarded write and its rollback, `Keys` the
-- validation and the verb.
pub mod World
pub mod Pair
pub mod Calls
pub mod Host
pub mod Severing
pub mod Keys
pub mod Mode
