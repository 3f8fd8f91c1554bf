-- ===== src/Commands/Keys.antt =====
-- src/at/commands/lorawan/at_lorawan_key_id.c: the AT commands for EUIs and keys, from their text to
-- the credentials and back.
use rzi.Prelude.{
  ℕ, ◌≡◌, refl, ap, Bool, true, false, not, ◌&&◌, List, [], ◌++◌, ℤ, pos, Option, none, some, codes,
  ◌==ℤ◌, if◌then◌else◌, is_zero, is_zero_iff, Bool-cases, inl, inr, arith,
}
use rzi.Err.{Err, fail}
use rzi.Settings.{zeros}
use rzi.Credentials.{SettingsApi, Credentials}
use rzi.Credentials.Access.{
  Field, app_key, field_size, is_session_key, is_abp, Session, set_bytes, get_bytes, get_field,
}
use rzi.Credentials.Stored.{set_bytes-get_field}
use rzi.Commands.{hex_to_bin, bin_to_hex}
use rzi.Commands.Hex.{upper_all, bin_to_hex-hex_to_bin}

-- `struct key_command`; the field gives the size, the getter and the setter.
pub record KeyCommand : Type 0 where
  pub response_name : List ℕ
  pub field : Field

-- What a handler does at its end: it responds with a value or with OK, or returns an error.
pub data Reply : Type 0 where
  value : List ℕ → Reply
  status_ok : Reply
  failed : ℤ → Reply

-- "%s=%s".
abbrev pub equation : List ℕ → List ℕ → List ℕ
equation name hex = name ++ (codes "=" ++ hex)

module _ (a : SettingsApi) (b : Session) (started : Bool) where
  -- The getter of a command is the one of its credential, on the AT thread.
  unfoldable pub read_key : KeyCommand → Credentials a × b.W → Reply × (Credentials a × b.W)
  unfolding get_field
  read_key c s =
      let (rc, v, t) = get_field a b started false c.field (some (field_size c.field)) s in
      (
        if rc ==ℤ fail Err.no_data
            then value (equation c.response_name (bin_to_hex (zeros (field_size c.field))))
            else if not (is_zero rc)
            then failed rc
            else value (equation c.response_name (bin_to_hex v)),
        t,
      )

  -- The bytes of the argument, `none` if it is no hexadecimal text of the right length.
  unfoldable pub write_key :
      KeyCommand → Option (List ℕ) → Credentials a × b.W → Reply × (Credentials a × b.W)
  write_key c none s = (failed (fail Err.invalid), s)
  write_key c (some v) (s, w) =
      let (rc, t) = set_bytes a false c.field (some v) s in
      (if is_zero rc then status_ok else failed rc, (t, w))

  -- `handle_key`.
  unfoldable pub handle_key :
      KeyCommand → Bool → List ℕ → Credentials a × b.W → Reply × (Credentials a × b.W)
  unfolding read_key
  handle_key c is_read argument s =
      if is_read then read_key c s else write_key c (hex_to_bin argument (field_size c.field)) s

  -- `handle_mcrootkey`.
  unfoldable pub handle_mcrootkey : Credentials a → Reply × Credentials a
  handle_mcrootkey s =
      let (rc, key, t) = get_bytes a false app_key (some 16) s in
      (
        if not (is_zero rc) && not (rc ==ℤ fail Err.no_data)
            then failed rc
            else value (
                equation (codes "AT+MCROOTKEY")
                  (bin_to_hex (if is_zero rc then key else zeros 16))),
        t,
      )

  abbrev is_ok : Reply → Bool
  is_ok status_ok = true
  is_ok _ = false

  code-is_ok : (rc : ℤ) → is_ok (if is_zero rc then status_ok else failed rc) ≡ true → rc ≡ pos 0
  code-is_ok rc = elim (Bool-cases (is_zero rc)) [
    | inl z ↦ λ _. (is_zero_iff rc).0 z
    | inr z ↦ rw z (λ ok. ground (arith, ok))
  ]

  write_key-read_key :
      (c : KeyCommand) (argument : List ℕ) (o : Option (List ℕ)) (s : Credentials a × b.W)
      → hex_to_bin argument (field_size c.field) ≡ o
      → (write_key c o s).0 ≡ status_ok
      → let t = (write_key c o s).1 in
        (is_session_key c.field && not (is_abp t.0.store.njm)) ≡ false
        → read_key c t ≡ (value (equation c.response_name (upper_all argument)), t)
  unfolding write_key read_key
  write_key-read_key c argument none s e ok own = ground (arith, ap is_ok ok)
  write_key-read_key c argument (some v) (s, w) e ok own =
      let set : (set_bytes a false c.field (some v) s).0 ≡ pos 0 = code-is_ok _ (ap is_ok ok) in
      let (_, _, _, got) = set_bytes-get_field a b started c.field v s w set in
      let (text, _) = bin_to_hex-hex_to_bin argument v (field_size c.field) e in
      rw (got, own, text) refl

  -- When a key command with an argument answers OK, the command with a question then answers with its
  -- name and the argument in upper case, and changes nothing; for the two session keys this is stated
  -- under ABP, where they are the device's own.
  pub handle_key-handle_key :
      (c : KeyCommand) (argument : List ℕ) (s : Credentials a × b.W)
      → (handle_key c false argument s).0 ≡ status_ok
      → let t = (handle_key c false argument s).1 in
        (is_session_key c.field && not (is_abp t.0.store.njm)) ≡ false
        → handle_key c true [] t ≡ (value (equation c.response_name (upper_all argument)), t)
  unfolding handle_key
  handle_key-handle_key c argument s =
      write_key-read_key c argument (hex_to_bin argument (field_size c.field)) s refl
