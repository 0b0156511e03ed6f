-- ===== src/Code/Condition.antt =====
-- `ConditionRecovery` of code.py: the linear symbolic execution of a rule's condition.
pub mod Monad
pub mod Operands
pub mod Sets
pub mod Step
pub mod Run
