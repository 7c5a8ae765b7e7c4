-- ===== src/Parser.antt =====
-- packages/nl-parser/src: from a quick-add text to the arguments of a new task.
pub mod Types
pub mod Title
pub mod Resolve
pub mod Parse
pub mod DateMath
pub mod Target
pub mod FirstDay
pub mod Compose
mod Tests
