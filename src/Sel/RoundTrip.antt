-- ===== src/Sel/RoundTrip.antt =====
-- What the printer writes, the parser of src/runtime/expressions/Sel.cpp reads back.
pub mod Levels
pub mod Endings
pub mod Constructs
pub mod Lists
pub mod Accesses
pub mod Whole
pub mod Precedence
