-- ===== src/Power.antt =====
-- src/power/power.c: the runtime switch and the counted locks over Zephyr's system PM.
-- The calls of Zephyr's policy (`pm_policy_state_all_lock_get` and `_put`) and of `k_sleep` have no
-- result; they are recorded in the order made, the latest first. Each function holds `power_lock`
-- for its whole body, so a call is one step. `isr` is `k_is_in_isr()`, `pm` is CONFIG_PM, and a
-- destination pointer is an `Option` that is `none` for NULL.
pub mod Balance
pub mod Mask
use Prim.Native.Nat.{bit_or}
use rzi.Prelude.{
  ℕ, zero, suc, ◌+◌, ◌-◌, ◌*◌, ◌^◌, Bool, true, false, not, ◌&&◌, List, [], ◌∷◌, ℤ, pos, negsuc,
  leb, ltb, ◌==◌, if◌then◌else◌, get_or, set, Option, none, some, is_null,
}
use rzi.Err.{Err, fail}

-- RZI_POWER_LOCK_COUNT.
abbrev pub lock_count : ℕ
lock_count = 5

-- RZI_POWER_LOCK_LORAWAN and RZI_POWER_LOCK_FLASH.
abbrev pub lock_lorawan : ℕ
lock_lorawan = 1

abbrev pub lock_flash : ℕ
lock_flash = 2

pub data PmCall : Type 0 where
  all_lock_get all_lock_put sleep_forever : PmCall
  sleep_ms : ℕ → PmCall

-- `is_pm_locked`, `lock_counts` (bytes), and the calls made so far.
pub record Power : Type 0 where
  pub is_pm_locked : Bool
  pub lock_counts : List ℕ
  pub calls : List PmCall

unfoldable pub initial : Power
initial = record { is_pm_locked = false; lock_counts = 0 ∷ 0 ∷ 0 ∷ 0 ∷ 0 ∷ []; calls = [] }

-- The loop of `get_lock_mask_locked`, from index `i` on.
mask_from : ℕ → ℕ → List ℕ → ℕ
mask_from mask i [] = mask
mask_from mask i (c ∷ cs) = mask_from (if c == 0 then mask else bit_or mask (2 ^ i)) (i + 1) cs

get_lock_mask_locked : Power → ℕ
unfolding mask_from
get_lock_mask_locked s = mask_from 0 0 s.lock_counts

pub set_pm_enabled : Bool → Bool → Bool → Power → ℤ × Power
set_pm_enabled isr pm enabled s =
    if isr
    then (fail Err.isr, s)
    else if not pm
    then (fail Err.not_supported, s)
    else if not enabled && not s.is_pm_locked
    then (pos 0, record s { is_pm_locked = true; calls = all_lock_get ∷ s.calls })
    else if enabled && s.is_pm_locked
    then (pos 0, record s { is_pm_locked = false; calls = all_lock_put ∷ s.calls })
    else (pos 0, s)

-- The value is what goes through the pointer, if anything does.
pub get_pm_enabled : Bool → Bool → Bool → Power → ℤ × Option Bool
get_pm_enabled isr pm null s =
    if isr
    then (fail Err.isr, none)
    else if null
    then (fail Err.invalid, none)
    else (pos 0, some (pm && not s.is_pm_locked))

-- `lock` is compared as an unsigned number. The byte is not incremented at UINT8_MAX.
unfoldable pub lock_get : Bool → ℕ → Power → ℤ × Power
lock_get isr lock s =
    if isr
    then (fail Err.isr, s)
    else if leb lock_count lock
    then (fail Err.invalid, s)
    else if get_or s.lock_counts lock 0 == 255
    then (fail Err.no_resource, s)
    else (
      pos 0,
      record s {
        calls = all_lock_get ∷ s.calls;
        lock_counts = set s.lock_counts lock (get_or s.lock_counts lock 0 + 1);
      },
    )

-- The byte is not decremented at 0, so truncated `-` is exact.
unfoldable pub lock_put : Bool → ℕ → Power → ℤ × Power
lock_put isr lock s =
    if isr
    then (fail Err.isr, s)
    else if leb lock_count lock
    then (fail Err.invalid, s)
    else if get_or s.lock_counts lock 0 == 0
    then (fail Err.invalid, s)
    else (
      pos 0,
      record s {
        calls = all_lock_put ∷ s.calls;
        lock_counts = set s.lock_counts lock (get_or s.lock_counts lock 0 - 1);
      },
    )

pub get_lock_mask : Bool → Bool → Power → ℤ × Option ℕ
unfolding get_lock_mask_locked
get_lock_mask isr null s =
    if isr
    then (fail Err.isr, none)
    else if null
    then (fail Err.invalid, none)
    else (pos 0, some (get_lock_mask_locked s))

pub sleep : Bool → ℤ → Power → ℤ × Power
sleep true timeout s = (fail Err.isr, s)
sleep false (negsuc n) s = (pos 0, record s { calls = sleep_forever ∷ s.calls })
sleep false (pos n) s = (pos 0, record s { calls = sleep_ms n ∷ s.calls })

-- A client's calls that can change the state, each from a context that may be an ISR.
pub data Request : Type 0 where
  switch : Bool → Bool → Request
  take_lock : Bool → ℕ → Request
  drop_lock : Bool → ℕ → Request
  rest : Bool → ℤ → Request

pub serve : Bool → Request → Power → ℤ × Power
unfolding set_pm_enabled lock_get lock_put sleep
serve pm (switch isr enabled) s = set_pm_enabled isr pm enabled s
serve pm (take_lock isr lock) s = lock_get isr lock s
serve pm (drop_lock isr lock) s = lock_put isr lock s
serve pm (rest isr timeout) s = sleep isr timeout s

pub run : Bool → List Request → Power → Power
run pm [] s = s
run pm (r ∷ rs) s = run pm rs (serve pm r s).1
