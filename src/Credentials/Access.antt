-- ===== src/Credentials/Access.antt =====
-- src/lorawan/api/lorawan_credentials.c: the getters and setters of the credentials.
use rzi.Prelude.{
  ℕ, ◌+◌, ◌*◌, ◌/◌, ◌%◌, Bool, true, false, not, List, [], ◌∷◌, ℤ, pos, Option, none, some, length,
  codes, ◌==◌, if◌then◌else◌, is_zero,
}
use Prim.Native.Nat.{bit_and}
use rzi.Err.{Err, fail}
use rzi.Settings.{word_at, zeros}
use rzi.Lorawan.{Activation, otaa, abp}
use rzi.Lorawan.Lifecycle.{check_thread}
use rzi.Credentials.{SettingsApi, Value, Store, Credentials, ensure_loaded, guarded_write}

-- The credentials that are texts of bytes. `set_bytes` stores each of them; `get_field` is their
-- public getters, of which those for the two session keys do not call `get_bytes`.
pub data Field : Type 0 where
  dev_eui app_eui app_key gen_app_key nwk_skey app_skey : Field

abbrev pub field_key : Field → List ℕ
field_key dev_eui = codes "deveui"
field_key app_eui = codes "joineui"
field_key app_key = codes "appkey"
field_key gen_app_key = codes "genappkey"
field_key nwk_skey = codes "nwkskey"
field_key app_skey = codes "appskey"

abbrev pub field_size : Field → ℕ
field_size dev_eui = 8
field_size app_eui = 8
field_size app_key = 16
field_size gen_app_key = 16
field_size nwk_skey = 16
field_size app_skey = 16

abbrev pub field : Field → Store → Value
field dev_eui s = s.dev_eui
field app_eui s = s.app_eui
field app_key s = s.app_key
field gen_app_key s = s.gen_app_key
field nwk_skey s = s.nwk_skey
field app_skey s = s.app_skey

-- The copy into the store, which also sets the flag.
abbrev pub set_field : Field → List ℕ → Store → Store
set_field dev_eui v s = record s { dev_eui = record { bytes = v; is_set = true } }
set_field app_eui v s = record s { app_eui = record { bytes = v; is_set = true } }
set_field app_key v s = record s { app_key = record { bytes = v; is_set = true } }
set_field gen_app_key v s = record s { gen_app_key = record { bytes = v; is_set = true } }
set_field nwk_skey v s = record s { nwk_skey = record { bytes = v; is_set = true } }
set_field app_skey v s = record s { app_skey = record { bytes = v; is_set = true } }

-- A device address as its four bytes, low byte first, and back.
abbrev pub le32 : ℕ → List ℕ
le32 n = n % 256 ∷ n / 256 % 256 ∷ n / 65536 % 256 ∷ n / 16777216 % 256 ∷ []

abbrev pub word32 : List ℕ → ℕ
word32 v = word_at 0 v + 65536 * word_at 1 v

-- `activation_supported`: RZI_LORAWAN_CAP_OTAA is bit 0, RZI_LORAWAN_CAP_ABP bit 1.
abbrev pub activation_supported : ℕ → Activation → Bool
activation_supported capabilities otaa = not (bit_and capabilities 1 == 0)
activation_supported capabilities abp = not (bit_and capabilities 2 == 0)

-- `njm_wire`.
abbrev pub njm_wire : Activation → ℕ
njm_wire abp = 0
njm_wire otaa = 1

abbrev pub is_abp : Activation → Bool
is_abp abp = true
is_abp otaa = false

-- The keys of a session, which the device has no copy of under OTAA.
abbrev pub is_session_key : Field → Bool
is_session_key nwk_skey = true
is_session_key app_skey = true
is_session_key _ = false

-- A destination that is not NULL and has the field's size.
abbrev pub fits : Field → Option ℕ → Bool
fits f none = false
fits f (some len) = len == field_size f

-- The backend's session operations; one that is NULL, or whose group is NULL, is `none`.
pub record Session : Type 1 where
  pub W : Type 0
  pub is_joined : W → ℤ × Bool × W
  pub get_dev_addr : Option (W → ℤ × ℕ × W)
  pub get_nwk_skey : Option (W → ℤ × List ℕ × W)
  pub get_app_skey : Option (W → ℤ × List ℕ × W)

module _ (a : SettingsApi) where
  -- A source that is NULL is `none`; its length is the argument `len`.
  unfoldable pub set_bytes : Bool → Field → Option (List ℕ) → Credentials a → ℤ × Credentials a
  set_bytes isr f none s =
      (if is_zero (check_thread isr) then fail Err.invalid else check_thread isr, s)
  set_bytes isr f (some v) s =
      if not (is_zero (check_thread isr))
      then (check_thread isr, s)
      else if not (length v == field_size f)
      then (fail Err.invalid, s)
      else guarded_write a (field_key f) v (set_field f v) s

  -- The static `get_bytes` of one member of the store. The length of the destination is `none` for
  -- NULL.
  unfoldable pub get_bytes : Bool → Field → Option ℕ → Credentials a → ℤ × List ℕ × Credentials a
  get_bytes isr f none s =
      (if is_zero (check_thread isr) then fail Err.invalid else check_thread isr, [], s)
  get_bytes isr f (some len) s =
      let (rc, t) = ensure_loaded a s in
      if not (is_zero (check_thread isr))
      then (check_thread isr, [], s)
      else if not (len == field_size f)
      then (fail Err.invalid, [], s)
      else if not (is_zero rc)
      then (rc, [], t)
      else if not (field f t.store).is_set
      then (fail Err.no_data, [], t)
      else (pos 0, (field f t.store).bytes, t)

  unfoldable pub set_dev_addr : Bool → ℕ → Credentials a → ℤ × Credentials a
  set_dev_addr isr dev_addr s =
      if not (is_zero (check_thread isr))
      then (check_thread isr, s)
      else guarded_write a (codes "devaddr") (le32 dev_addr)
          (λ st. record st { dev_addr = record { bytes = le32 dev_addr; is_set = true } }) s

  -- The mode is one of the two; the cast of another number gives -RZI_ERR_INVALID.
  unfoldable pub set_activation : Bool → ℕ → Activation → Credentials a → ℤ × Credentials a
  set_activation isr capabilities mode s =
      if not (is_zero (check_thread isr))
      then (check_thread isr, s)
      else if not (activation_supported capabilities mode)
      then (fail Err.not_supported, s)
      else guarded_write a (codes "njm") (njm_wire mode ∷ []) (λ st. record st { njm = mode }) s

  -- The getters of a plain field: `read` is the field, `has_room` that the destination is not NULL.
  unfoldable pub get_policy {ℓ} :
      {A : Type ℓ} → Bool → Bool → (Store → A) → Credentials a → ℤ × A × Credentials a
  get_policy isr has_room read s =
      let (rc, t) = ensure_loaded a s in
      if not (is_zero (check_thread isr))
      then (check_thread isr, read s.store, s)
      else if not has_room
      then (fail Err.invalid, read s.store, s)
      else (rc, read t.store, t)

  module _ (b : Session) (started : Bool) where
    -- `session_joined`; `started` is what `rzi_lorawan_check_started` finds.
    unfoldable pub session_joined : b.W → ℤ × Bool × b.W
    session_joined w = if not started then (pos 0, false, w) else b.is_joined w

    -- `read_otaa_dev_addr` and `read_otaa_key`: `idle` is the result with no session.
    unfoldable pub read_otaa : {A : Type 0} → A → Option (b.W → ℤ × A × b.W) → b.W → ℤ × A × b.W
    read_otaa idle none w =
        let (rc, is_joined, w') = session_joined w in
        (
          if not (is_zero rc) then rc else if is_joined then fail Err.not_supported else pos 0,
          idle,
          w',
        )
    read_otaa idle (some op) w =
        let (rc, is_joined, w') = session_joined w in
        if not (is_zero rc)
        then (rc, idle, w')
        else if not is_joined
        then (pos 0, idle, w')
        else op w'

    -- `rzi_lorawan_get_nwk_skey`, `rzi_lorawan_get_app_skey` and `rzi_lorawan_get_dev_addr`: under
    -- ABP the stored value, under OTAA the session's.
    unfoldable pub get_session :
        {A : Type 0}
        → Bool
        → Bool
        → (Store → Value)
        → (List ℕ → A)
        → A
        → Option (b.W → ℤ × A × b.W)
        → Credentials a × b.W
        → ℤ × A × (Credentials a × b.W)
    get_session isr has_room read decode idle op (s, w) =
        let (rc, t) = ensure_loaded a s in
        let (rc', v, w') = read_otaa idle op w in
        if not (is_zero (check_thread isr))
        then (check_thread isr, idle, (s, w))
        else if not has_room
        then (fail Err.invalid, idle, (s, w))
        else if not (is_zero rc)
        then (rc, idle, (t, w))
        else if is_abp t.store.njm
        then (
          if (read t.store).is_set then pos 0 else fail Err.no_data,
          if (read t.store).is_set then decode (read t.store).bytes else idle,
          (t, w),
        )
        else (rc', v, (t, w'))

    abbrev pub get_dev_addr : Bool → Bool → Credentials a × b.W → ℤ × ℕ × (Credentials a × b.W)
    get_dev_addr isr has_room = get_session isr has_room (λ st. st.dev_addr) word32 0 b.get_dev_addr

    -- The backend's operation for a session key.
    abbrev pub session_op : Field → Option (b.W → ℤ × List ℕ × b.W)
    session_op nwk_skey = b.get_nwk_skey
    session_op app_skey = b.get_app_skey
    session_op f = none

    -- `rzi_lorawan_get_dev_eui`, `_app_eui`, `_app_key`, `_gen_app_key`, `_nwk_skey` and
    -- `_app_skey`; the destination is as for `get_bytes`.
    unfoldable pub get_field :
        Bool → Field → Option ℕ → Credentials a × b.W → ℤ × List ℕ × (Credentials a × b.W)
    unfolding get_bytes get_session
    get_field isr f len (s, w) =
        let (rc, v, t) = get_bytes isr f len s in
        if is_session_key f
        then get_session isr (fits f len) (field f) (λ key. key) (zeros (field_size f))
            (session_op f) (s, w)
        else (rc, v, (t, w))
