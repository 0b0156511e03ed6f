-- ===== src/Decompile.antt =====
-- yaradec/decompile.py: the pipeline.
pub mod Patterns
pub mod Pipeline
pub mod Recovery
pub mod Names
pub mod Whole
pub mod Filled
