-- ===== src/Sel/Library.antt =====
-- What src/runtime/expressions/Value.hpp and src/runtime/expressions/Sel.cpp use of the C++ library
-- and of nlohmann::json. A double is its 64-bit pattern; a text is counted in bytes.
use sapo_engine.Prelude.{ℕ, String, Bool, Option}
use sapo_engine.Prelude.Int.{ℤ}
use sapo_engine.Json.{Json}

abbrev pub Double : Type 0
Double = ℕ

pub record Library : Type 0 where
  -- Arithmetic, tests and rounding of doubles, and the two powers of ten that `tidy` names.
  pub of_integer : ℤ → Double
  pub to_integer : Double → ℤ
  pub is_finite : Double → Bool
  pub equal : Double → Double → Bool
  pub less : Double → Double → Bool
  pub negate : Double → Double
  pub sum : Double → Double → Double
  pub difference : Double → Double → Double
  pub product : Double → Double → Double
  pub quotient : Double → Double → Double
  pub fmod : Double → Double → Double
  pub abs : Double → Double
  pub floor : Double → Double
  pub round : Double → Double
  pub log10 : Double → Double
  pub pow : Double → Double → Double
  pub quadrillion : Double
  pub billionth : Double
  -- `std::stod`, with the number of characters read; `std::stoi`; `std::to_string`.
  pub stod : String → Option (Double × ℕ)
  pub stoi : String → Option ℤ
  pub to_string : ℤ → String
  -- Texts: the size, a byte as a text, whether a byte is a space, the order, a search.
  pub size : String → ℕ
  pub byte_at : String → ℕ → String
  pub is_space : String → ℕ → Bool
  pub comes_before : String → String → Bool
  pub concat : String → String → String
  pub contains_text : String → String → Bool
  pub pop_back : String → String
  pub ends_with : String → String → Bool
  -- `std::regex_search`; nothing where the regular expression is not one.
  pub regex_search : String → String → Option Bool
  -- Documents: equality, text, and a merge patch.
  pub same : Json → Json → Bool
  pub dump : Json → String
  pub merge_patch : Json → Json → Json
