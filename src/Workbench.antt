-- ===== src/Workbench.antt =====
-- The workbench of the application: apps/perseval-app/src/workbench. `State` is state.rs and
-- actions.rs; `Tabs`, `Scope`, `Model` and `Restore` are model.rs; `Navigation` is
-- navigation.rs and `Registry` editor_registry.rs.
pub mod State
pub mod Panes
pub mod Tabs
pub mod Scope
pub mod Model
pub mod Restore
pub mod Navigation
pub mod Registry
mod Tests
