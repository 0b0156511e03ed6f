-- ===== src/Tests.antt =====
-- Runs of the theorems at concrete inputs: a container, regexp programs and condition bytecode.
pub mod Containers
pub mod Programs
pub mod Conditions
pub mod Sections
pub mod Pipeline
pub mod Patterns
pub mod Tables
