-- ===== src/Emit.antt =====
-- yaradec/emit.py: the rules as source text, and what the text cannot say.
pub mod Escape
pub mod Quoted
pub mod Warnings
pub mod Strings
pub mod Legality
pub mod Rules
pub mod Groups
