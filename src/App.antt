-- ===== src/App.antt =====
-- The rules of the web and the mobile app that stand apart from their views: apps/web/src/lib/drag.ts,
-- historyOp.ts, url.ts and useUrlSync.ts, and apps/mobile/src/lib/reminderPlan.ts.
pub mod Reminders
pub mod Drag
pub mod History
mod Tests
