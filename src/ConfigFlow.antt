-- ===== src/ConfigFlow.antt =====
-- config_flow.py: the subentry flows of a controller's modules and moods.
pub mod Tests
pub mod EntryTests
pub mod Outputs
pub mod EntryForms
pub mod FormDefaults
pub mod Entry
pub mod Flow
pub mod Imports
pub mod Modules
pub mod Subentries
