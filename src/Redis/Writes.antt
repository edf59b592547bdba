-- ===== src/Redis/Writes.antt =====
-- One write of the store of src/redis/RedisStateStore.cpp to the double: refused or let through.
use sapo_engine.Prelude.{
  ◌≡◌, ◌≢◌, refl, ◌∙◌, ap, true, false, not, ◌&&◌, ◌⊎◌, inl, inr, Option, none, some, if◌then◌else◌,
  arith,
}
use sapo_engine.Prelude.Int.{ℤ, pos, negsuc, ◌+ℤ◌, ◌≤ℤ◌, ◌<ℤ◌, eqb_ℤ, leb_ℤ, eqb_ℤ_iff}
use sapo_engine.Prelude.Decimal.{parse_int-to_string, IsInt64}
use sapo_engine.StateStore.{SessionCheckpoint, SaveOutcome, version_conflict, gone}
use sapo_engine.Redis.Values.{
  RedisValue, Outcome, ◌>>=◌, throw_if_error, is_error, to_array, to_int,
}
use sapo_engine.Redis.Keyspace.{Mock, Entry, find_live, put}
use sapo_engine.Redis.Scripts.{
  save_found, mirror_save, written_hash, index_session, stored_version, previous_status,
  exists_entry, three,
}
use sapo_engine.Redis.Client.{mock_client, command, replied}
use sapo_engine.Redis.Live.{live, find_live-found, str_eq_ne}
use sapo_engine.Redis.Store.{write, finish_write, saved}
use sapo_engine.Redis.Layout.{Options, JsonText, session_key, three_ints, write_command}
use sapo_engine.Redis.Sessions.{IsUp}
use sapo_engine.Redis.Calls.{
  logged, command-up, save_keys, save_args, save_call, write_command-atomic, dispatch-save,
}

-- The state in which the script looks its session up, and what it finds.
abbrev pub looked : JsonText → Options → Mock → SessionCheckpoint → ℤ → Mock
looked json o r c expected =
    (find_live (logged r (save_call json o c expected)) (session_key o c.session_id)).0

abbrev pub stored_at : Options → Mock → SessionCheckpoint → Option Entry
stored_at o r c = live r (session_key o c.session_id)

-- The state that a write that is let through leaves.
abbrev pub after_write : JsonText → Options → Mock → SessionCheckpoint → ℤ → Mock
after_write json o r c expected =
    let found = stored_at o r c in
    let r' = looked json o r c expected in
    let keys = save_keys o c.session_id in
    let args = save_args json o c expected in
    index_session
      (put r' (session_key o c.session_id)
        (written_hash r' (session_key o c.session_id) args (stored_version found +ℤ pos 1)))
      keys args (previous_status found)

abbrev pub refusal : Option Entry → SaveOutcome
refusal found = record {
  result = if exists_entry found then version_conflict else gone;
  version = if exists_entry found then stored_version found else pos 0;
}

-- What a write does with the reply to its command.
abbrev finish_reply :
    Options → SessionCheckpoint → Outcome Mock RedisValue → Outcome Mock SaveOutcome
finish_reply o c replied =
    replied >>= throw_if_error >>= λ p. finish_write mock_client o c p.0 (three_ints (to_array p.1))

write-named :
    (json : JsonText) (o : Options) (r : Mock) (c : SessionCheckpoint) (expected : ℤ)
    → c.session_id ≢ ""
    → write mock_client json o r c expected
      ≡ finish_reply o c (command r (write_command json o c expected))
unfolding write
write-named json o r c expected named = rw (str_eq_ne named) refl

finish-replied :
    (o : Options) (c : SessionCheckpoint) (found : Mock × RedisValue)
    → is_error found.1 ≡ false
    → finish_reply o c (replied found)
      ≡ finish_write mock_client o c found.0 (three_ints (to_array found.1))
unfolding throw_if_error
finish-replied o c (r, reply) fine = rw fine refl

mirror_save-found :
    (json : JsonText) (o : Options) (r : Mock) (c : SessionCheckpoint) (expected : ℤ)
    → mirror_save r (save_keys o c.session_id) (save_args json o c expected)
      ≡ save_found
          (find_live r (session_key o c.session_id)).0
          (live r (session_key o c.session_id))
          (save_keys o c.session_id)
          (save_args json o c expected)
unfolding mirror_save
mirror_save-found json o r c expected =
    let key = session_key o c.session_id in
    ap
      (λ found.
        save_found (find_live r key).0 found (save_keys o c.session_id)
          (save_args json o c expected))
      (find_live-found r key)

-- A write is one run of the script.
pub write-script :
    (json : JsonText) (o : Options) (r : Mock) (c : SessionCheckpoint) (expected : ℤ)
    → IsUp r
    → o.atomic_index ≡ true
    → c.session_id ≢ ""
    → (found : Mock × RedisValue)
    → save_found
        (looked json o r c expected)
        (stored_at o r c)
        (save_keys o c.session_id)
        (save_args json o c expected)
      ≡ found
    → is_error found.1 ≡ false
    → write mock_client json o r c expected
      ≡ finish_write mock_client o c found.0 (three_ints (to_array found.1))
unfolding live
write-script json o r c expected up atomic named found ran fine =
    let called = logged r (save_call json o c expected) in
    write-named json o r c expected named
    ∙ ap (λ args. finish_reply o c (command r args)) (write_command-atomic json o c expected atomic)
    ∙ ap (finish_reply o c) (command-up r (save_call json o c expected) up)
    ∙ ap (λ p. finish_reply o c (replied p)) (dispatch-save called json o c expected up.up_scripts)
    ∙ ap (λ p. finish_reply o c (replied p)) (mirror_save-found json o called c expected ∙ ran)
    ∙ finish-replied o c found fine

eqb_ℤ_ne : {a b : ℤ} → a ≢ b → eqb_ℤ a b ≡ false
eqb_ℤ_ne {a} {b} h = ground (arith, eqb_ℤ_iff a b)

leb_ℤ-true : (a b : ℤ) → a ≤ℤ b → leb_ℤ a b ≡ true
leb_ℤ-true a b h = ground arith

-- The script at another version than the one expected, and at the expected one or at none.
save_found-refused :
    (r : Mock) (found : Option Entry) (json : JsonText) (o : Options) (c : SessionCheckpoint)
    (expected : ℤ)
    → IsInt64 expected
    → pos 0 ≤ℤ expected
    → stored_version found ≢ expected
    → save_found r found (save_keys o c.session_id) (save_args json o c expected) ≡ (
      r,
      three
          (if exists_entry found then pos 0 else negsuc 0)
          (if exists_entry found then stored_version found else pos 0)
          (negsuc 0),
    )
unfolding save_found
save_found-refused r found json o c expected h nonneg unequal =
    rw
      (
        parse_int-to_string expected (negsuc 0) h,
        leb_ℤ-true (pos 0) expected nonneg,
        eqb_ℤ_ne unequal,
      )
      refl

-- A write at this expected version is let through.
abbrev pub IsLetThrough : Option Entry → ℤ → Type 0
IsLetThrough found expected = (expected <ℤ pos 0) ⊎ (stored_version found ≡ expected)

let_through :
    (found : Option Entry) (expected : ℤ)
    → IsLetThrough found expected
    → (leb_ℤ (pos 0) expected && not (eqb_ℤ (stored_version found) expected)) ≡ false
let_through found expected (inl h) = ground arith
let_through found expected (inr e) = ground (arith, eqb_ℤ_iff (stored_version found) expected)

save_found-accepted :
    (r : Mock) (found : Option Entry) (json : JsonText) (o : Options) (c : SessionCheckpoint)
    (expected : ℤ)
    → IsInt64 expected
    → IsLetThrough found expected
    → save_found r found (save_keys o c.session_id) (save_args json o c expected) ≡ (
      index_session
          (put r (session_key o c.session_id) (
            written_hash r
              (session_key o c.session_id)
              (save_args json o c expected)
              (stored_version found +ℤ pos 1)))
          (save_keys o c.session_id)
          (save_args json o c expected)
          (previous_status found),
      three (pos 1) (stored_version found +ℤ pos 1) (previous_status found),
    )
unfolding save_found
save_found-accepted r found json o c expected h through =
    rw (parse_int-to_string expected (negsuc 0) h, let_through found expected through) refl

module _ (json : JsonText) (o : Options) (r : Mock) (c : SessionCheckpoint) (expected : ℤ)
    (up : IsUp r) (atomic : o.atomic_index ≡ true) (named : c.session_id ≢ "")
    (in_range : IsInt64 expected) where
  pub write_refused :
      pos 0 ≤ℤ expected
      → stored_version (stored_at o r c) ≢ expected
      → write mock_client json o r c expected
        ≡ (looked json o r c expected, some (refusal (stored_at o r c)))
  unfolding finish_write three_ints to_array is_error to_int exists_entry
  write_refused nonneg unequal =
      write-script json o r c expected up atomic named _
        (save_found-refused _ (stored_at o r c) json o c expected in_range nonneg unequal) refl
      ∙ finished (stored_at o r c)
    where
      finished :
          (found : Option Entry)
          → finish_write mock_client o c (looked json o r c expected) (
              some (
                (if exists_entry found then pos 0 else negsuc 0),
                ((if exists_entry found then stored_version found else pos 0), negsuc 0),
              ))
            ≡ (looked json o r c expected, some (refusal found))
      finished none = refl
      finished (some e) = refl

  pub write_accepted :
      IsLetThrough (stored_at o r c) expected
      → write mock_client json o r c expected ≡ (
        after_write json o r c expected,
        some (saved (stored_version (stored_at o r c) +ℤ pos 1)),
      )
  unfolding finish_write three_ints to_array is_error to_int
  write_accepted through =
      write-script json o r c expected up atomic named _
        (save_found-accepted _ (stored_at o r c) json o c expected in_range through) refl
      ∙ (rw atomic refl)
