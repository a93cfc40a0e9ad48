-- ===== src/HandleResult.antt =====
-- pipeline/handleresult.py, the class TestResult. Each child has one of its methods.
pub mod Names
pub mod Monitor
pub mod Summary
pub mod Files
pub mod Generate
pub mod Split
mod Tests
