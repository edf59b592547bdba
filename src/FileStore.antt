-- ===== src/FileStore.antt =====
-- The file store of sessions, `FileStateStore` of src/runtime/StateStore.cpp. A directory is a map
-- from file names, without the directory and the ".json" that all have, to the text of the file. A
-- write goes to a temporary file that is renamed, so that it is done whole or not at all; whether
-- the file system does a write or a removal is an argument. The JSON library is a parameter.
use sapo_engine.Prelude.{
  ℕ, zero, suc, ◌+◌, String, Bool, true, false, not, ◌&&◌, ◌||◌, Option, none, some, List, [], ◌∷◌,
  if◌then◌else◌, leb, ltb, ◌==◌, str_eq,
}
use Prim.Native.Char.{char, code}
use sapo_engine.Prelude.Map.{Assoc, lookup, insert, erase}
use sapo_engine.Prelude.Int.{ℤ, pos, ◌+ℤ◌, eqb_ℤ}
use sapo_engine.Json.{Json}
use sapo_engine.StateStore.Documents.{Numbers, to_json, from_json, ◌>>=◌}
use sapo_engine.StateStore.{
  SessionCheckpoint, SaveOutcome, SaveResult, ok, version_conflict, gone, version_in, is_some,
}
pub mod Refinement

abbrev pub Files : Type 0
Files = Assoc String

-- The JSON library: `dump(2)`, none where it throws (on text that is not UTF-8), `parse`, none where
-- it throws, and the conversions of numbers.
pub record JsonFile : Type 0 where
  pub dump : Json → Option String
  pub parse : String → Option Json
  pub numbers : Numbers

-- A byte that a file name may have.
unfoldable pub is_safe : ℕ → Bool
is_safe c =
    (leb b'a' c && leb c b'z')
    || (leb b'A' c && leb c b'Z')
    || (leb b'0' c && leb c b'9')
    || c == b'-'
    || c == b'_'

-- The bytes of a character in UTF-8.
unfoldable pub byte_count : ℕ → ℕ
byte_count c = if ltb c 128 then 1 else if ltb c 2048 then 2 else if ltb c 65536 then 3 else 4

unfoldable pub underscores : ℕ → String → String
underscores zero s = s
underscores (suc n) s = String.◌∷◌ (char b'_' tt) (underscores n s)

unfoldable pub safe_name : String → String
unfolding is_safe byte_count underscores
safe_name String.[] = String.[]
safe_name (String.◌∷◌ c s) =
    let rest = safe_name s in
    if is_safe (code c) then String.◌∷◌ c rest else underscores (byte_count (code c)) rest

unfoldable pub path_for : String → String
unfolding safe_name
path_for session_id = let safe = safe_name session_id in if str_eq safe "" then "session" else safe

-- `none` is the error of a write that fails.
unfoldable pub write_text : Bool → String → Option String → Files → Option Files
write_text true path (some text) fs = some (insert path text fs)
write_text true path none fs = none
write_text false path text fs = none

unfoldable pub with_outcome : SaveOutcome → Option Files → Option (Files × SaveOutcome)
with_outcome o none = none
with_outcome o (some fs) = some (fs, o)

unfoldable pub exists_in : Option String → Bool
exists_in none = false
exists_in (some text) = true

unfoldable pub remove_file : Bool → Files → String → Files × Bool
remove_file true fs session_id =
    (erase (path_for session_id) fs, exists_in (lookup (path_for session_id) fs))
remove_file false fs session_id = (fs, false)

module _ (json : JsonFile) where
  unfoldable pub read_text : Option String → Option SessionCheckpoint
  read_text content = content >>= json.parse >>= from_json json.numbers

  unfoldable pub read_checkpoint : Files → String → Option SessionCheckpoint
  unfolding read_text
  read_checkpoint fs path = read_text (lookup path fs)

  unfoldable pub write_checkpoint : Bool → String → SessionCheckpoint → Files → Option Files
  write_checkpoint writes path c fs = write_text writes path (json.dump (to_json c)) fs

  unfoldable pub save_file : Bool → Files → SessionCheckpoint → Option Files
  save_file writes fs c =
      let path = path_for c.session_id in
      let current = read_checkpoint fs path in
      write_checkpoint writes path (record c { version = version_in current +ℤ pos 1 }) fs

  unfoldable pub save_file_if : Bool → Files → SessionCheckpoint → ℤ → Option (Files × SaveOutcome)
  save_file_if writes fs c expected =
      let path = path_for c.session_id in
      let found = read_checkpoint fs path in
      let current = version_in found in
      if not (eqb_ℤ current expected)
      then some (
        fs,
        record { result = if is_some found then version_conflict else gone; version = current },
      )
      else with_outcome (record { result = ok; version = expected +ℤ pos 1 })
          (write_checkpoint writes path (record c { version = expected +ℤ pos 1 }) fs)

  unfoldable pub load_file : Files → String → Option SessionCheckpoint
  load_file fs session_id = read_checkpoint fs (path_for session_id)
