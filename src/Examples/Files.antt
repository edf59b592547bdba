-- ===== src/Examples/Files.antt =====
-- Sessions of the file store of src/runtime/StateStore.cpp, with a JSON library that prints a
-- document as its version and knows three texts.
use sapo_engine.Prelude.{
  String, ◌≡◌, refl, ap, Option, none, some, [], ◌∷◌, if◌then◌else◌, str_eq, true, false, ◌⊎◌, inl,
  inr, sym, ◌∙◌,
}
use sapo_engine.Prelude.Map.{lookup}
use sapo_engine.Prelude.Int.{pos, negsuc, ◌+ℤ◌, eqb_ℤ}
use sapo_engine.Json.{Json, number_integer, object}
use sapo_engine.StateStore.{
  SessionCheckpoint, Store, empty_checkpoint, current_version, load, save, save_if, remove,
}
use sapo_engine.StateStore.Documents.{ReadsNumbers, to_json, find_member, from_json-to_json}
use sapo_engine.FileStore.{
  Files, JsonFile, path_for, read_text, read_checkpoint, save_file, save_file_if, load_file,
  remove_file,
}
use sapo_engine.FileStore.Refinement.{
  IsApart, Holds, Prints, save_file-Holds, save_file_if-Holds, remove_file-Holds,
}

abbrev TwoSessions : String → Type 0
TwoSessions id = (id ≡ "a") ⊎ (id ≡ "b")

abbrev stored : SessionCheckpoint
stored = record empty_checkpoint { session_id = "a"; version = pos 3 }

abbrev next : SessionCheckpoint
next = record stored { version = pos 4 }

abbrev text_of : Option Json → Option String
text_of (some (number_integer n)) =
    if eqb_ℤ n (pos 3) then some "three" else if eqb_ℤ n (pos 4) then some "four" else none
text_of _ = none

abbrev json : JsonFile
json = record {
  dump = λ v. elim v [ object fs ↦ text_of (find_member "version" fs) | _ ↦ none ];
  parse = λ text.
      if str_eq text "three"
      then some (to_json stored)
      else if str_eq text "four"
      then some (to_json next)
      else none;
  numbers = record {
    to_int64 = λ v. elim v [ number_integer n ↦ some n | _ ↦ none ];
    to_size =
        λ v. elim v [ number_integer n ↦ elim n [ pos k ↦ some k | negsuc k ↦ none ] | _ ↦ none ];
  };
}

reads : ReadsNumbers json.numbers
reads = record { reads_int64 = λ n. refl; reads_size = λ n. refl }

abbrev files : Files
files = ("a", "three") ∷ ("b", "torn") ∷ []

abbrev in_memory : Store
in_memory = ("a", stored) ∷ []

path_of_a : path_for "a" ≡ "a"
unfolding path_for
path_of_a = refl

path_of_b : path_for "b" ≡ "b"
unfolding path_for
path_of_b = refl

-- Two sessions of one file.
one_name : path_for "user_1" ≡ path_for "user.1"
unfolding path_for
one_name = refl

own_name : (id : String) → TwoSessions id → path_for id ≡ id
own_name id (inl a) = ap path_for a ∙ path_of_a ∙ sym a
own_name id (inr b) = ap path_for b ∙ path_of_b ∙ sym b

apart : IsApart TwoSessions
apart i j p q e = sym (own_name i p) ∙ e ∙ own_name j q

alike_a : load_file json files "a" ≡ load in_memory "a"
unfolding load_file load read_checkpoint read_text lookup path_for
alike_a = from_json-to_json json.numbers reads stored

alike_b : load_file json files "b" ≡ load in_memory "b"
unfolding load_file load read_checkpoint read_text lookup path_for
alike_b = refl

alike : Holds json TwoSessions files in_memory
alike id (inl a) = rw a alike_a
alike id (inr b) = rw b alike_b

printed : Prints json next
unfolding to_json find_member
printed = record { text = "four"; dumps = refl; parses = refl }

printed_next : Prints json (record stored { version = current_version in_memory "a" +ℤ pos 1 })
unfolding current_version lookup ◌+ℤ◌
printed_next = printed

printed_after : Prints json (record stored { version = pos 3 +ℤ pos 1 })
unfolding ◌+ℤ◌
printed_after = printed

save_file-Holds_example :
    (fs' : Files) × (save_file json true files stored ≡ some fs')
    × Holds json TwoSessions fs' (save in_memory stored)
save_file-Holds_example =
    save_file-Holds json reads TwoSessions apart files in_memory alike stored (inl refl)
      printed_next

save_file_if-Holds_example :
    (fs' : Files) × (save_file_if json true files stored (pos 3)
      ≡ some (fs', (save_if in_memory stored (pos 3)).1))
    × Holds json TwoSessions fs' (save_if in_memory stored (pos 3)).0
save_file_if-Holds_example =
    save_file_if-Holds json reads TwoSessions apart files in_memory alike stored (pos 3) (inl refl)
      printed_after

remove_file-Holds_example :
    Holds json TwoSessions (remove_file true files "a").0 (remove in_memory "a").0
    × Holds json TwoSessions (remove_file false files "a").0 in_memory
    × ((remove_file false files "a").1 ≡ false)
remove_file-Holds_example =
    remove_file-Holds json reads TwoSessions apart files in_memory alike "a" (inl refl)
