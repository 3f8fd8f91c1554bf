-- ===== src/Lorawan/Lifecycle.antt =====
-- lorawan.c: start, region, class, attached services and the class C power lock.
-- `check_backend_contract` only asserts, and is not modelled.
pub mod Power
use Prim.Native.Nat.{bit_and}
use rzi.Prelude.{
  ℕ, ◌^◌, Bool, true, false, not, ◌&&◌, ◌||◌, List, [], ◌∷◌, ◌++◌, ℤ, pos, Option, none, some,
  length, ltb, leb, ◌==◌, ◌==ℤ◌, if◌then◌else◌, is_zero, is_null,
}
use rzi.Err.{Err, fail}
use rzi.Power.{lock_get, lock_put, lock_lorawan}
use rzi.Lorawan.{
  stopped, starting, DeviceClass, class_a, class_b, class_c, Hooks, Delivery, started_service, Host,
  Lorawan,
}
use rzi.Lorawan.Events.{publish_state}

-- SERVICE_MAX.
abbrev pub service_max : ℕ
service_max = 2

-- RZI_LORAWAN_REGION_RU_864, the last region.
abbrev pub last_region : ℕ
last_region = 10

abbrev pub is_class_c : DeviceClass → Bool
is_class_c class_c = true
is_class_c _ = false

-- RZI_LORAWAN_CAP_CLASS_A and its neighbours.
abbrev pub class_cap : DeviceClass → ℕ
class_cap class_a = 2 ^ 2
class_cap class_b = 2 ^ 3
class_cap class_c = 2 ^ 4

abbrev pub started_calls : List Hooks → List Delivery → List Delivery
started_calls [] calls = calls
started_calls (v ∷ vs) calls =
    started_calls vs (elim v.on_started [ none ↦ calls | some f ↦ started_service f ∷ calls ])

unfoldable pub check_thread : Bool → ℤ
check_thread isr = if isr then fail Err.isr else pos 0

module _ (h : Host) where
  -- `update_class_c_power_locked`, from a thread.
  unfoldable pub update_class_c_power : Bool → Lorawan h → Lorawan h
  update_class_c_power class_c' s =
      let (got, p) = lock_get false lock_lorawan s.power in
      let (put, q) = lock_put false lock_lorawan s.power in
      if not h.auto_lock
      then s
      else if class_c' && not s.power_class_c_held
      then record s { power = p; power_class_c_held = is_zero got }
      else if not class_c' && s.power_class_c_held
      then record s { power = q; power_class_c_held = not (is_zero put) }
      else s

  unfoldable pub check_started : Bool → Lorawan h → ℤ
  unfolding check_thread
  check_started isr s =
      if isr then fail Err.isr else if not s.started then fail Err.not_ready else pos 0

  unfoldable pub note_class : DeviceClass → Lorawan h → Lorawan h
  unfolding update_class_c_power
  note_class c s = update_class_c_power (is_class_c c) (record s { configured_class = c })

  -- The region is compared as an unsigned number.
  unfoldable pub set_region : Bool → ℕ → Lorawan h → ℤ × Lorawan h
  set_region isr region s =
      let (rc, w) = h.config_set_region region s.world in
      if isr
      then (fail Err.isr, s)
      else if ltb last_region region
      then (fail Err.invalid, s)
      else if s.started
      then (fail Err.invalid_state, s)
      else (
        rc,
        record s {
          world = w;
          configured_region = if is_zero rc then region else s.configured_region;
        },
      )

  unfoldable pub set_join_backoff_bypass : Bool → Bool → Lorawan h → ℤ × Lorawan h
  set_join_backoff_bypass isr enabled s =
      if isr
      then (fail Err.isr, s)
      else if s.started
      then (fail Err.invalid_state, s)
      else (pos 0, record s { configured_join_backoff_bypass = enabled })

  -- The part of `rzi_lorawan_init` behind the configuration lock.
  unfoldable pub start_backend : ℕ → Lorawan h → ℤ × Lorawan h
  start_backend region s =
      let s' = publish_state h starting s in
      let (rc, w) = h.start region s.configured_join_backoff_bypass s'.world in
      let s'' = record s' { world = w } in
      if is_zero rc
      then (rc, record s'' { calls = started_calls s''.services s''.calls })
      else (rc, publish_state h stopped (record s'' { started = false }))

  unfoldable pub init : Bool → ℕ → Lorawan h → ℤ × Lorawan h
  unfolding start_backend
  init isr region s =
      let (rc, w) = h.config_set_region region s.world in
      if isr
      then (fail Err.isr, s)
      else if ltb last_region region
      then (fail Err.invalid, s)
      else if s.started
      then (fail Err.already, s)
      else if not (is_zero rc)
      then (rc, record s { world = w })
      else start_backend region (record s { started = true; world = w; configured_region = region })

  unfoldable pub register_service : Bool → Option Hooks → Lorawan h → ℤ × Lorawan h
  register_service isr none s = if isr then (fail Err.isr, s) else (fail Err.invalid, s)
  register_service isr (some v) s =
      if isr
      then (fail Err.isr, s)
      else if leb service_max (length s.services)
      then (fail Err.no_resource, s)
      else (pos 0, record s { services = s.services ++ (v ∷ []) })

  -- The argument is a class of the enumeration; the check of its range is its type.
  unfoldable pub set_class : Bool → DeviceClass → Lorawan h → ℤ × Lorawan h
  set_class isr c s =
      let rc = check_started isr s in
      let (rc', w) = h.set_class c s.world in
      let s' = record s { world = w } in
      if not (is_zero rc)
      then (rc, s)
      else if bit_and h.capabilities (class_cap c) == 0
      then (fail Err.not_supported, s)
      else (rc', if is_zero rc' then note_class c s' else s')

  -- The code, and what goes through the pointer.
  pub get_class : Bool → Bool → Lorawan h → ℤ × Option DeviceClass × Lorawan h
  get_class isr null s =
      let rc = check_started isr s in
      if not (is_zero rc)
      then (rc, none, s)
      else if null
      then (fail Err.invalid, none, s)
      else elim h.get_class [
        | none ↦ (pos 0, some s.configured_class, s)
        | some get ↦
            let (rc', c, w) = get s.world in
            let s' = record s { world = w } in
            if is_zero rc'
            then (pos 0, some c, note_class c s')
            else if not (rc' ==ℤ fail Err.not_supported)
            then (rc', none, s')
            else (pos 0, some s'.configured_class, s')
      ]

  pub get_region : Bool → Bool → Lorawan h → ℤ × Option ℕ × Lorawan h
  get_region isr null s =
      let (rc, region, w) = h.config_get_region s.configured_region s.world in
      if isr
      then (fail Err.isr, none, s)
      else if null
      then (fail Err.invalid, none, s)
      else if s.started
      then (pos 0, some s.configured_region, s)
      else let s' = record s { world = w; configured_region = region } in
        (rc, if is_zero rc then some region else none, s')
