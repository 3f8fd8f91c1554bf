-- ===== src/Fuota.antt =====
-- src/lorawan/services/fuota/lorawan_fuota.c: the firmware update coordinator.
-- This file has its types, its state and the image; `Session` has the events and the public calls.
-- The mutex is given up around each callback; a callback that calls back in does so as a later step.
-- Every call is made from a thread, apart from the argument `isr` of the public functions. The
-- keepalive's own uplink is not modelled.
pub mod Session
pub mod Image
pub mod Lock
pub mod Runs
use rzi.Prelude.{
  ℕ, zero, suc, ◌+◌, ◌-◌, ◌%◌, ◌^◌, Bool, true, false, not, ◌&&◌, ◌||◌, List, [], ◌∷◌, ℤ, pos,
  Option, none, some, length, take, drop, min, leb, ltb, ◌==◌, if◌then◌else◌, is_zero, is_null,
}
use rzi.Err.{Err, fail, Errno, err_from_errno}
use rzi.Power.{Power, lock_get, lock_put, lock_flash}

-- `enum rzi_fuota_state`.
pub data State : Type 0 where
  idle ready transferring complete failed applying : State

-- `struct rzi_fuota_callbacks`; a callback is a number.
pub record Callbacks : Type 0 where
  pub state_changed : Option ℕ
  pub session_started : Option ℕ
  pub complete_called : Option ℕ
  pub user_data : ℕ

-- A call into a client, or of the kernel's work queues.
pub data Call : Type 0 where
  call_state : ℕ → State → ℕ → Call
  call_session : ℕ → ℕ → Call
  call_complete : ℕ → ℤ → ℕ → Call
  schedule_keepalive cancel_keepalive submit_apply : Call

-- `struct rzi_lorawan_fuota_ops`, over the world of the backend.
pub record Ops (World : Type 0) : Type 0 where
  pub start_clock_sync : Option (World → ℤ × World)
  pub get_image_size : Option (World → ℤ × ℕ × World)
  pub read_image : Option (ℕ → ℕ → World → ℤ × List ℕ × World)
  pub reboot : Option (World → ℤ × World)

-- The build (`auto_lock` for CONFIG_RZI_POWER and its AUTO_SERVICE_LOCK), the backend, and what the
-- coordinator calls of Zephyr: the byte order helpers, the image writer and the boot loader's request.
pub record Platform : Type 1 where
  pub World : Type 0
  pub auto_lock : Bool
  pub auto_apply : Bool
  pub keepalive : Bool
  pub image_manager : Bool
  pub has_capability : Bool
  pub errno : Errno
  pub ops : Option (Ops World)
  pub get_le16 : List ℕ → ℕ
  pub get_le32 : List ℕ → ℕ
  pub flash_img_init : World → ℤ × World
  pub flash_img_buffered_write : List ℕ → Bool → World → ℤ × World
  pub boot_request_upgrade : World → ℤ × World

abbrev pub image_magic : ℕ
image_magic = 0x96f3b83d

abbrev pub image_tlv_magic : ℕ
image_tlv_magic = 0x6907

abbrev pub image_hdr_size : ℕ
image_hdr_size = 32

-- APPLY_CHUNK.
abbrev pub apply_chunk : ℕ
apply_chunk = 256

-- The sum of two `uint32_t` values, or of two `size_t` values on the 32-bit targets.
abbrev pub add_u32 : ℕ → ℕ → ℕ
add_u32 a b = (a + b) % 2 ^ 32

module _ (p : Platform) where
  -- The statics of the file. `calls` has the latest first.
  pub record Fuota : Type 0 where
    pub started : Bool
    pub state : State
    pub image_ready : Bool
    pub power_flash_held : Bool
    pub image_size : ℕ
    pub expected_size : ℕ
    pub last_error : ℤ
    pub callbacks : Callbacks
    pub ops : Option (Ops p.World)
    pub power : Power
    pub calls : List Call
    pub world : p.World

  abbrev pub same_state : State → State → Bool
  same_state idle idle = true
  same_state ready ready = true
  same_state transferring transferring = true
  same_state complete complete = true
  same_state failed failed = true
  same_state applying applying = true
  same_state _ _ = false

  -- The states in which the flash must stay awake.
  abbrev pub wants_flash : State → Bool
  wants_flash transferring = true
  wants_flash applying = true
  wants_flash _ = false

  -- The block of `set_state_locked` that follows the power service.
  unfoldable pub hold_flash : State → Fuota → Fuota
  hold_flash next s =
      let (got, up) = lock_get false lock_flash s.power in
      let (_, down) = lock_put false lock_flash s.power in
      if not p.auto_lock
      then s
      else if wants_flash next && not s.power_flash_held
      then (if is_zero got
          then record s { power = up; power_flash_held = true }
          else record s { power = up })
      else if not (wants_flash next) && s.power_flash_held
      then record s { power = down; power_flash_held = false }
      else s

  unfoldable pub set_state_locked : State → Fuota → Fuota
  unfolding hold_flash
  set_state_locked next s =
      let s' = hold_flash next (record s { state = next }) in
      if same_state s.state next then s else elim s'.callbacks.state_changed [
        | none ↦ s'
        | some f ↦ record s' { calls = call_state f next s'.callbacks.user_data ∷ s'.calls }
      ]

  unfoldable pub notify_complete : ℤ → Fuota → Fuota
  notify_complete status s = elim s.callbacks.complete_called [
    | none ↦ s
    | some f ↦ record s { calls = call_complete f status s.callbacks.user_data ∷ s.calls }
  ]

  unfoldable pub notify_session_started : Fuota → Fuota
  notify_session_started s = elim s.callbacks.session_started [
    | none ↦ s
    | some f ↦ record s { calls = call_session f s.callbacks.user_data ∷ s.calls }
  ]

  -- `schedule_keepalive` and `cancel_keepalive`, which are empty without an interval.
  unfoldable pub work : Call → Fuota → Fuota
  work c s = if p.keepalive then record s { calls = c ∷ s.calls } else s

  -- The backend's `read_image`, when there is one.
  abbrev pub reader : Fuota → Option (ℕ → ℕ → p.World → ℤ × List ℕ × p.World)
  reader s = elim s.ops [ none ↦ none | some o ↦ o.read_image ]

  -- The measured size, when the backend gives one that is not 0.
  unfoldable pub measure : Fuota → Option ℕ × p.World
  measure s = elim s.ops [
    | none ↦ (none, s.world)
    | some o ↦ elim o.get_image_size [
      | none ↦ (none, s.world)
      | some get ↦
          let (rc, size, w) = get s.world in
          (if is_zero rc && not (size == 0) then some size else none, w)
    ]
  ]

  -- The part of `detect_image_size` that reads the image's own header and trailer.
  unfoldable pub read_size : (ℕ → ℕ → p.World → ℤ × List ℕ × p.World) → Fuota → ℤ × Fuota
  read_size read s =
      let (rc, header, w) = read 0 image_hdr_size s.world in
      let end =
        add_u32 (p.get_le16 (take 2 (drop 8 header))) (p.get_le32 (take 4 (drop 12 header))) in
      let (rc', tlv, w') = read end 4 w in
      if not (is_zero rc)
      then (rc, record s { world = w })
      else if not (p.get_le32 (take 4 header) == image_magic)
      then (fail Err.no_data, record s { world = w })
      else if not (is_zero rc')
      then (rc', record s { world = w' })
      else if not (p.get_le16 (take 2 tlv) == image_tlv_magic)
      then (pos 0, record s { image_size = end; world = w' })
      else (
        pos 0,
        record s { image_size = add_u32 end (p.get_le16 (take 2 (drop 2 tlv))); world = w' },
      )

  unfoldable pub detect_image_size : ℕ → Fuota → ℤ × Fuota
  unfolding measure read_size
  detect_image_size reported s =
      if not (s.expected_size == 0)
      then (pos 0, record s { image_size = s.expected_size })
      else if not (reported == 0)
      then (pos 0, record s { image_size = reported })
      else let (measured, w) = measure s in
        let s' = record s { world = w } in
        elim measured [
          | some size ↦ (pos 0, record s' { image_size = size })
          | none ↦ elim (reader s') [
            | none ↦ (fail Err.not_supported, s')
            | some read ↦ read_size read s'
          ]
        ]

  -- `log_image_head`: what it reads goes to the log.
  unfoldable pub log_image_head : Fuota → Fuota
  log_image_head s =
      let request = if not (s.image_size == 0) && ltb s.image_size 16 then s.image_size else 16 in
      elim (reader s) [
        | none ↦ s
        | some read ↦ let (rc, head, w) = read 0 request s.world in record s { world = w }
      ]

  -- The loop of `copy_image_to_slot` on fuel; each round copies at least one byte, so `remaining`
  -- is enough.
  unfoldable pub copy_from :
      (ℕ → ℕ → p.World → ℤ × List ℕ × p.World) → ℕ → ℕ → ℕ → p.World → ℤ × p.World
  copy_from read zero offset remaining w = (pos 0, w)
  copy_from read (suc fuel) offset remaining w =
      let request = min remaining apply_chunk in
      let (rc, chunk, w') = read (offset % 2 ^ 32) request w in
      let (rc', w'') = p.flash_img_buffered_write chunk (leb remaining apply_chunk) w' in
      let rest = copy_from read fuel (offset + request) (remaining - request) w'' in
      if remaining == 0
      then (pos 0, w)
      else if not (is_zero rc)
      then (rc, w')
      else if not (is_zero rc')
      then (err_from_errno p.errno rc', w'')
      else rest

  unfoldable pub copy_image_to_slot : Fuota → ℤ × Fuota
  unfolding copy_from
  copy_image_to_slot s = elim (reader s) [
    | none ↦ (fail Err.not_supported, s)
    | some read ↦
        let (rc, w) = p.flash_img_init s.world in
        let (rc', w') = copy_from read s.image_size 0 s.image_size w in
        let (rc'', w'') = p.boot_request_upgrade w' in
        if not (is_zero rc)
        then (err_from_errno p.errno rc, record s { world = w })
        else if not (is_zero rc')
        then (rc', record s { world = w' })
        else (err_from_errno p.errno rc'', record s { world = w'' })
  ]
