-- ===== src/Rules.antt =====
-- src/rules: the analysis of a rules document.
pub mod Refs
pub mod Shape
pub mod Sort
pub mod Analyze
pub mod Checked
pub mod Value
pub mod EvaluationResult
pub mod Compare
pub mod Sound
mod Tests
