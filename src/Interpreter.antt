-- ===== src/Interpreter.antt =====
-- The workflow interpreter, src/runtime/Interpreter.cpp.
pub mod State
pub mod Frames
pub mod Advance
pub mod Errors
pub mod Activate
pub mod Drive
pub mod Jump
pub mod Same
pub mod Unwinding
pub mod Recovery
pub mod Budget
pub mod Turns
pub mod LostErrors
