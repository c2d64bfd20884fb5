-- ===== src/Examples.antt =====
-- The theorems at concrete inputs, and the data they run on.
mod ConfigExamples
mod AdjustmentExamples
mod ScheduleExamples
mod ExchangeExamples
mod ModeExamples
mod Integers
mod Sorting
pub mod WireExamples
pub mod ClientExamples
pub mod ServerExamples
pub mod SelectionExamples
mod NetworkExamples
mod MessageExamples
mod ThreadExamples
