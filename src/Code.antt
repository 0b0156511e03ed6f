-- ===== src/Code.antt =====
-- yaradec/code.py: the VM bytecode and the recovery of rule conditions.
pub mod Decode
pub mod Writer
pub mod Termination
pub mod Bodies
pub mod Blocks
pub mod Expr
pub mod Operators
pub mod Literals
pub mod Unescape
pub mod Listing
pub mod Loops
pub mod Condition
pub mod Compiled
