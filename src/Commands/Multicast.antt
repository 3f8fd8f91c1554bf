-- ===== src/Commands/Multicast.antt =====
-- src/at/commands/lorawan/at_lorawan_multicast.c: the AT commands for multicast groups, over the
-- functions of Network/Groups. What sscanf reads is an argument, and so is the text that snprintf
-- makes of a session; it is taken not to fail.
use rzi.Prelude.{
  ℕ, zero, suc, ◌<◌, ◌+◌, ◌*◌, ◌%◌, ◌^◌, true, not, ◌||◌, List, [], ◌∷◌, ◌++◌, ℤ, pos, negsuc,
  Option, none, some, length, ltb, leb, ◌==◌, if◌then◌else◌, is_zero, Bool-cases, inl, inr, arith,
}
use rzi.Err.{Err, fail}
use rzi.Lorawan.{DeviceClass, class_b, class_c}
use rzi.Network.Groups.{
  GroupOps, Multicast, add_multicast_session, remove_multicast_session, get_multicast_count,
  get_multicast_session,
}
use rzi.Settings.{zeros}
use rzi.Commands.{hex_to_bin}
use rzi.Commands.ClassB.{status_of}
use rzi.Commands.Keys.{Reply, value, failed}

-- The word of bytes, the highest first.
abbrev pub be_word : ℕ → List ℕ → ℕ
be_word acc [] = acc
be_word acc (b ∷ bs) = be_word (256 * acc + b) bs

abbrev pub as_dev_addr : Option (List ℕ) → Option ℕ
as_dev_addr none = none
as_dev_addr (some bytes) = some (be_word 0 bytes)

-- `parse_dev_addr`; `none` is -RZI_ERR_INVALID.
unfoldable pub parse_dev_addr : List ℕ → Option ℕ
parse_dev_addr hex = as_dev_addr (hex_to_bin hex 4)

-- What sscanf reads of ADDMULC's argument when it reads all seven fields.
pub record MulticastFields : Type 0 where
  pub class_letter : ℕ
  pub dev_addr_text : List ℕ
  pub nwk_skey : List ℕ
  pub app_skey : List ℕ
  pub frequency : ℕ
  pub rate : ℕ
  pub period : ℕ

-- 'B' and 'C'.
abbrev pub class_of : ℕ → Option DeviceClass
class_of letter = if letter == 66 then some class_b else if letter == 67 then some class_c else none

-- The session of the fields, when the class and the three texts could be read.
abbrev pub session_of :
    MulticastFields
    → Option DeviceClass
    → Option ℕ
    → Option (List ℕ)
    → Option (List ℕ)
    → Option Multicast
session_of f (some c) (some address) (some network) (some application) =
    if f.frequency == 0 || ltb 15 f.rate
    then none
    else some (record {
      device_class = c;
      dev_addr = address;
      application_session_key = application;
      network_session_key = network;
      frequency_hz = f.frequency;
      data_rate = f.rate;
      periodicity = f.period % 2 ^ 16;
      group_id = negsuc 0;
    })
session_of f _ _ _ _ = none

abbrev pub session_from : Option MulticastFields → Option Multicast
session_from none = none
session_from (some f) =
    session_of f (class_of f.class_letter) (parse_dev_addr f.dev_addr_text)
      (hex_to_bin f.nwk_skey 16) (hex_to_bin f.app_skey 16)

-- The uninitialized session that is handed to the getter; what is in it does not matter.
abbrev pub blank_session : Multicast
blank_session = record {
  device_class = class_b;
  dev_addr = 0;
  application_session_key = zeros 16;
  network_session_key = zeros 16;
  frequency_hz = 0;
  data_rate = 0;
  periodicity = 0;
  group_id = pos 0;
}

module _ (g : GroupOps) (rc : ℤ) where
  abbrev pub add_session : Option Multicast → g.W → Reply × g.W
  add_session none w = (failed (fail Err.invalid), w)
  add_session (some m) w =
      let (code, w') = add_multicast_session g rc (some m) w in (status_of code, w')

  -- `handle_addmulc`; the fields are `none` if sscanf does not read seven.
  unfoldable pub handle_addmulc : Option MulticastFields → g.W → Reply × g.W
  handle_addmulc fields w = add_session (session_from fields) w

  abbrev pub remove_session : Option ℕ → g.W → Reply × g.W
  remove_session none w = (failed (fail Err.invalid), w)
  remove_session (some address) w =
      let (code, w') = remove_multicast_session g rc address w in (status_of code, w')

  unfoldable pub handle_rmvmulc : List ℕ → g.W → Reply × g.W
  handle_rmvmulc argument w = remove_session (parse_dev_addr argument) w

-- `describe` is the text "MC%u:%c:%08X:%u:%u:%u", `tx_size` is CONFIG_RZI_AT_TX_BUFFER_SIZE.
module _ (describe : ℕ → Multicast → List ℕ) (tx_size : ℕ) (g : GroupOps) (rc : ℤ) where
  -- The separator in front of a session's text.
  abbrev pub joined_to : List ℕ → List ℕ
  joined_to line = if length line == 0 then [] else 13 ∷ 10 ∷ []

  -- The loop of `handle_lstmulc`, for so many sessions from the index on.
  unfoldable pub list_from : ℕ → ℕ → List ℕ → g.W → ℤ × List ℕ × g.W
  list_from zero i line w = (pos 0, line, w)
  list_from (suc n) i line w =
      let (code, m, w') = get_multicast_session g rc true blank_session i w in
      let longer = line ++ (joined_to line ++ describe (i + 1) m) in
      let rest = list_from n (i + 1) longer w' in
      if not (is_zero code)
      then (code, line, w')
      else if leb tx_size (length longer)
      then (fail Err.no_resource, line, w')
      else rest

  unfoldable pub handle_lstmulc : g.W → Reply × g.W
  handle_lstmulc w =
      let (code, count, w') = get_multicast_count g rc true w in
      let (code', line, w'') = list_from count 0 [] w' in
      if not (is_zero code)
      then (failed code, w')
      else (if is_zero code' then value line else failed code', w'')

  -- What the loop has printed, the final NUL included, always fits the buffer.
  length-list_from :
      (n i : ℕ) (line : List ℕ) (w : g.W)
      → length line < tx_size
      → length (list_from n i line w).1 < tx_size
  unfolding list_from
  length-list_from zero i line w fits = fits
  length-list_from (suc n) i line w fits =
      let (code, m, w') = get_multicast_session g rc true blank_session i w in
      let longer = line ++ (joined_to line ++ describe (i + 1) m) in
      elim (Bool-cases (is_zero code)) [
        | inl z ↦ elim (Bool-cases (leb tx_size (length longer))) [
          | inl full ↦ rw (z, full) fits
          | inr room ↦ rw (z, room) (length-list_from n (i + 1) longer w' (ground (arith, room)))
        ]
        | inr bad ↦ rw bad fits
      ]
