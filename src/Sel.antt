-- ===== src/Sel.antt =====
-- The expression language, src/runtime/expressions/Sel.cpp and SelNodes.hpp beside it.
pub mod Syntax
pub mod Reading
pub mod Parser
pub mod Termination
pub mod Printer
pub mod RoundTrip
pub mod Library
pub mod Values
pub mod Operators
pub mod Evaluator
pub mod Agreement
pub mod RelaxedSteps
pub mod Strictness
pub mod Errors
pub mod Sorts
pub mod SortSafety
