-- ===== src/Sel/Termination.antt =====
-- The parser of src/runtime/expressions/Sel.cpp ends: each function leaves fewer tokens than it
-- found, and a fuel above the number of tokens is enough.
pub mod Basics
pub mod Inside
pub mod Accesses
pub mod Levels
pub mod Whole
