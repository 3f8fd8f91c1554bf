-- ===== src/Network/Mac.antt =====
-- src/lorawan/api/lorawan_mac_commands.c: link checks and device time.
use rzi.Prelude.{
  ℕ, Bool, true, not, ◌&&◌, ℤ, pos, Option, none, some, ltb, ◌==◌, if◌then◌else◌, is_zero, is_null,
}
use rzi.Err.{Err, fail}
use rzi.Network.{Reads}
use rzi.Network.Groups.{group_get}

-- `enum rzi_lorawan_link_check_mode`, with the numbers of a cast that are out of range.
abbrev pub link_check_disabled : ℕ
link_check_disabled = 0

abbrev pub link_check_once : ℕ
link_check_once = 1

abbrev pub link_check_every_uplink : ℕ
link_check_every_uplink = 2

-- `struct rzi_lorawan_mac_ops`.
pub record MacOps : Type 1 where
  pub W : Type 0
  pub request_link_check_op : Option (W → ℤ × W)
  pub request_device_time_op : Option (W → ℤ × W)
  pub get_network_time_op : Reads W ℕ

-- `trig_link_check`, `trig_device_time`.
abbrev pub trig : {W : Type 0} → Option (W → ℤ × W) → W → ℤ × W
trig none w = (fail Err.not_supported, w)
trig (some op) w = op w

module _ (m : MacOps) where
  -- The statics of the file, and the backend.
  pub record Mac : Type 0 where
    pub link_check_mode : ℕ
    pub device_time_enabled : Bool
    pub world : m.W

  -- The checks that the functions share; `rc` is what `rzi_lorawan_check_started` gives.
  abbrev pub check_op : ℤ → Bool → Option (m.W → ℤ × m.W) → ℤ
  check_op rc is_valid op =
      if not (is_zero rc)
      then rc
      else if not is_valid
      then fail Err.invalid
      else if is_null op
      then fail Err.not_supported
      else pos 0

  unfoldable pub get_link_check_mode : ℤ → Bool → Mac → ℤ × ℕ
  get_link_check_mode rc has_room s =
      (check_op rc has_room m.request_link_check_op, s.link_check_mode)

  unfoldable pub request_link_check : ℤ → ℕ → Mac → ℤ × Mac
  request_link_check rc mode s =
      let checked = check_op rc (not (ltb link_check_every_uplink mode)) m.request_link_check_op in
      let (code, w) = trig m.request_link_check_op s.world in
      if not (is_zero checked)
      then (checked, s)
      else if mode == link_check_disabled
      then (pos 0, record s { link_check_mode = mode })
      else (
        code,
        record s {
          link_check_mode =
              if is_zero code && (mode == link_check_once) then link_check_disabled else mode;
          world = w;
        },
      )

  unfoldable pub get_device_time_enabled : ℤ → Bool → Mac → ℤ × Bool
  get_device_time_enabled rc has_room s =
      (check_op rc has_room m.request_device_time_op, s.device_time_enabled)

  unfoldable pub request_device_time : ℤ → Bool → Mac → ℤ × Mac
  request_device_time rc enabled s =
      let checked = check_op rc true m.request_device_time_op in
      let (code, w) = trig m.request_device_time_op s.world in
      if not (is_zero checked)
      then (checked, s)
      else if not enabled
      then (pos 0, record s { device_time_enabled = enabled })
      else (code, record s { device_time_enabled = enabled; world = w })

  unfoldable pub get_network_time : ℤ → Bool → Mac → ℤ × ℕ × Mac
  get_network_time rc has_room s =
      let (code, time, w) = group_get rc has_room 0 m.get_network_time_op s.world in
      (code, time, record s { world = w })

  -- `rzi_lorawan_mac_commands_on_uplink`; the codes are ignored.
  unfoldable pub on_uplink : Mac → Mac
  on_uplink s =
      let (_, w) = trig m.request_link_check_op s.world in
      let checked = if s.link_check_mode == link_check_every_uplink then w else s.world in
      let (_, w') = trig m.request_device_time_op checked in
      record s { world = if s.device_time_enabled then w' else checked }
