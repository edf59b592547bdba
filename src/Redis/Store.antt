-- ===== src/Redis/Store.antt =====
-- `RedisStateStore` of src/redis/RedisStateStore.cpp, over any client. A method that throws has no
-- result; the messages of its errors are not part of the model. The JSON library is a parameter.
use sapo_engine.Prelude.{
  ℕ, String, Bool, true, false, Option, none, some, List, [], ◌∷◌, if◌then◌else◌, str_eq,
}
use sapo_engine.Prelude.Int.{ℤ, pos, negsuc, pos_part, ltb_ℤ, leb_ℤ, eqb_ℤ}
use sapo_engine.Prelude.Decimal.{to_string}
use sapo_engine.Json.{Json}
use sapo_engine.StateStore.{
  SessionCheckpoint, SessionStatus, SaveOutcome, SaveResult, session_status_from_string, ok,
  version_conflict, gone,
}
use sapo_engine.StateStore.Documents.{from_json}
use sapo_engine.Redis.Values.{
  RedisValue, Replies, no_items, item, Outcome, ◌>>=◌, RedisClient, to_int, to_text, to_array,
  is_nil, is_ok_status, throw_if_error, throw_if_any_error,
}
use sapo_engine.Redis.Scripts.{release_claim_script}
use sapo_engine.Redis.Layout.{
  JsonText, Options, claim_key, index_batch, index_key, remove_from_every_index, session_key,
  status_from_index, three_ints, write_command,
}

abbrev pub saved : ℤ → SaveOutcome
saved version = record { result = ok; version = version }

unfoldable pub is_ok : SaveResult → Bool
is_ok ok = true
is_ok _ = false

abbrev pub read_document : JsonText → Option Json → Option SessionCheckpoint
read_document json none = none
read_document json (some v) = from_json json.numbers v

abbrev pub with_version :
    {S : Type 0} → RedisValue → S → Option SessionCheckpoint → Outcome S (Option SessionCheckpoint)
with_version v s none = (s, none)
with_version v s (some c) = (s, some (some (record c { version = to_int v c.version })))

unfoldable pub read_blob :
    {S : Type 0} → JsonText → S → Option String → RedisValue → Outcome S (Option SessionCheckpoint)
unfolding to_int from_json
read_blob json s none v = (s, none)
read_blob json s (some blob) v = with_version v s (read_document json (json.parse blob))

unfoldable pub read_session :
    {S : Type 0} → JsonText → S × Replies → Outcome S (Option SessionCheckpoint)
unfolding read_blob is_nil to_text
read_session json (s, item b (item v no_items)) =
    if is_nil b then (s, some none) else read_blob json s (to_text b) v
read_session json (s, _) = (s, none)

abbrev pub status_of_text : Option String → Option SessionStatus
status_of_text none = none
status_of_text (some text) = session_status_from_string text

unfoldable pub remove_batch : Options → String → Option SessionStatus → List (List String)
unfolding session_key index_key remove_from_every_index
remove_batch o id none = ("DEL" ∷ session_key o id ∷ []) ∷ remove_from_every_index o id
remove_batch o id (some s) =
    ("DEL" ∷ session_key o id ∷ [])
    ∷ ("ZREM" ∷ index_key o none ∷ id ∷ [])
    ∷ ("ZREM" ∷ index_key o (some s) ∷ id ∷ [])
    ∷ []

unfoldable pub first_is_positive : {S : Type 0} → S × List RedisValue → Outcome S Bool
unfolding throw_if_error to_int
first_is_positive (s, []) = (s, none)
first_is_positive (s, reply ∷ rest) =
    throw_if_error (s, reply) >>= λ p. (p.0, some (ltb_ℤ (pos 0) (to_int p.1 (pos 0))))

module _ {S : Type 0} (client : RedisClient S) where
  unfoldable pub update_index :
      Options → S → String → Option SessionStatus → SessionStatus → ℤ → Outcome S (List RedisValue)
  unfolding index_batch throw_if_any_error
  update_index o s id previous next updated_ms =
      client.pipeline s (index_batch o id previous next updated_ms) >>= throw_if_any_error

  -- What a write makes of the script's three numbers.
  unfoldable pub finish_write :
      Options → SessionCheckpoint → S → Option (ℤ × (ℤ × ℤ)) → Outcome S SaveOutcome
  unfolding update_index status_from_index
  finish_write o c s none = (s, none)
  finish_write o c s (some (code, (version, previous))) =
      if eqb_ℤ code (pos 1)
      then (if o.atomic_index
          then (s, some (saved version))
          else (update_index o s c.session_id (status_from_index previous) c.status c.updated_ms
              >>= λ p. (p.0, some (saved version))))
      else if eqb_ℤ code (pos 0)
      then (s, some (record { result = version_conflict; version = version }))
      else if eqb_ℤ code (negsuc 0)
      then (s, some (record { result = gone; version = pos 0 }))
      else (s, none)

  module _ (json : JsonText) (o : Options) where
    unfoldable pub write : S → SessionCheckpoint → ℤ → Outcome S SaveOutcome
    unfolding write_command finish_write three_ints to_array throw_if_error
    write s c expected =
        if str_eq c.session_id ""
        then (s, none)
        else (client.command s (write_command json o c expected) >>= throw_if_error >>= λ p.
            finish_write o c p.0 (three_ints (to_array p.1)))

    unfoldable pub save : S → SessionCheckpoint → Outcome S (Unit {0})
    unfolding write is_ok
    save s c =
        write s c (negsuc 0) >>= λ p. if is_ok p.1.result then (p.0, some tt) else (p.0, none)

    unfoldable pub save_if : S → SessionCheckpoint → ℤ → Outcome S SaveOutcome
    unfolding write
    save_if s c expected = if ltb_ℤ expected (pos 0) then (s, none) else write s c expected

    unfoldable pub load : S → String → Outcome S (Option SessionCheckpoint)
    unfolding session_key throw_if_error to_array read_session
    load s id =
        if str_eq id ""
        then (s, none)
        else (client.command s ("HMGET" ∷ session_key o id ∷ "blob" ∷ "version" ∷ [])
            >>= throw_if_error
            >>= λ p. read_session json (p.0, to_array p.1))

    unfoldable pub remove : S → String → Outcome S Bool
    unfolding session_key throw_if_error to_text remove_batch first_is_positive
    remove s id =
        if str_eq id ""
        then (s, none)
        else (client.command s ("HGET" ∷ session_key o id ∷ "status" ∷ [])
            >>= throw_if_error
            >>= λ p.
                client.pipeline p.0 (remove_batch o id (status_of_text (to_text p.1)))
                >>= first_is_positive)

    unfoldable pub count : S → Option SessionStatus → Outcome S ℕ
    unfolding index_key throw_if_error to_int
    count s wanted =
        client.command s ("ZCARD" ∷ index_key o wanted ∷ []) >>= throw_if_error >>= λ p.
        (p.0, some (pos_part (to_int p.1 (pos 0))))

  -- A claim needs an identifier, a token and a time.
  unfoldable pub try_claim : Options → S → String → String → ℤ → Outcome S Bool
  unfolding claim_key throw_if_error is_ok_status to_string
  try_claim o s id token ttl_ms =
      if str_eq token ""
      then (s, none)
      else if leb_ℤ ttl_ms (pos 0)
      then (s, none)
      else if str_eq id ""
      then (s, none)
      else (client.command s ("SET" ∷ claim_key o id ∷ token ∷ "NX" ∷ "PX" ∷ to_string ttl_ms ∷ [])
          >>= throw_if_error
          >>= λ p. (p.0, some (is_ok_status p.1)))

  unfoldable pub release_claim : Options → S → String → String → Outcome S Bool
  unfolding claim_key throw_if_error to_int
  release_claim o s id token =
      if str_eq id ""
      then (s, none)
      else (client.command s ("EVAL" ∷ release_claim_script ∷ "1" ∷ claim_key o id ∷ token ∷ [])
          >>= throw_if_error
          >>= λ p. (p.0, some (ltb_ℤ (pos 0) (to_int p.1 (pos 0)))))
