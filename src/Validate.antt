-- ===== src/Validate.antt =====
-- src/validate.rs and src/validate/: the validation of answers.
pub mod Model
mod Tests
pub mod Limits
pub mod Page
pub mod Datetime
pub mod Conversion
pub mod Constraints
pub mod Fields
pub mod Calculated
pub mod Repeater
pub mod Response
