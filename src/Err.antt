-- ===== src/Err.antt =====
-- include/rzi/err.h and src/common/common_err.c: the closed error catalog and the translation
-- of a driver's errno into it. The values of the errno constants belong to the C library, so
-- they are a parameter. `int` is unbounded here, so `-rc` does not overflow at INT_MIN.
pub mod Laws
use mathlib.Core.Option
use rzi.Prelude.{ℕ, suc, ◌-◌, Bool, true, false, Option, none, some, List, ℤ, pos, negsuc, codes}
use rzi.Prelude.{◌==◌, if◌then◌else◌}

-- `enum rzi_err`.
pub data Err : Type 0 where
  invalid isr not_ready already busy not_supported no_resource not_found no_data too_large : Err
  timeout overflow io bad_message no_device not_joined denied invalid_state : Err

-- The values that the enum assigns.
abbrev pub err_value : Err → ℕ
err_value invalid = 1000
err_value isr = 1001
err_value not_ready = 1002
err_value already = 1003
err_value busy = 1004
err_value not_supported = 1005
err_value no_resource = 1006
err_value not_found = 1007
err_value no_data = 1008
err_value too_large = 1009
err_value timeout = 1010
err_value overflow = 1011
err_value io = 1012
err_value bad_message = 1013
err_value no_device = 1014
err_value not_joined = 1015
err_value denied = 1016
err_value invalid_state = 1017

-- A negated code, as the public functions return it: `-RZI_ERR_INVALID`.
abbrev pub fail : Err → ℤ
fail e = negsuc (err_value e - 1)

-- The case of the switch in `catalog_name` that a value takes, `RZI_SUCCESS` aside.
pub find_err : ℕ → Option Err
find_err v =
    if v == 1000
    then some invalid
    else if v == 1001
    then some isr
    else if v == 1002
    then some not_ready
    else if v == 1003
    then some already
    else if v == 1004
    then some busy
    else if v == 1005
    then some not_supported
    else if v == 1006
    then some no_resource
    else if v == 1007
    then some not_found
    else if v == 1008
    then some no_data
    else if v == 1009
    then some too_large
    else if v == 1010
    then some timeout
    else if v == 1011
    then some overflow
    else if v == 1012
    then some io
    else if v == 1013
    then some bad_message
    else if v == 1014
    then some no_device
    else if v == 1015
    then some not_joined
    else if v == 1016
    then some denied
    else if v == 1017
    then some invalid_state
    else none

err_name : Err → List ℕ
err_name invalid = codes "RZI_ERR_INVALID"
err_name isr = codes "RZI_ERR_ISR"
err_name not_ready = codes "RZI_ERR_NOT_READY"
err_name already = codes "RZI_ERR_ALREADY"
err_name busy = codes "RZI_ERR_BUSY"
err_name not_supported = codes "RZI_ERR_NOT_SUPPORTED"
err_name no_resource = codes "RZI_ERR_NO_RESOURCE"
err_name not_found = codes "RZI_ERR_NOT_FOUND"
err_name no_data = codes "RZI_ERR_NO_DATA"
err_name too_large = codes "RZI_ERR_TOO_LARGE"
err_name timeout = codes "RZI_ERR_TIMEOUT"
err_name overflow = codes "RZI_ERR_OVERFLOW"
err_name io = codes "RZI_ERR_IO"
err_name bad_message = codes "RZI_ERR_BAD_MESSAGE"
err_name no_device = codes "RZI_ERR_NO_DEVICE"
err_name not_joined = codes "RZI_ERR_NOT_JOINED"
err_name denied = codes "RZI_ERR_DENIED"
err_name invalid_state = codes "RZI_ERR_INVALID_STATE"

-- `catalog_name`; `none` is NULL.
unfoldable pub catalog_name : ℕ → Option (List ℕ)
unfolding find_err err_name
catalog_name v = if v == 0 then some (codes "RZI_SUCCESS") else Option.map err_name (find_err v)

-- `rzi_err_str`: the sign is dropped first.
pub err_str : ℤ → List ℕ
unfolding catalog_name
err_str (pos n) = Option.get_or (catalog_name n) (codes "RZI_ERR_UNKNOWN")
err_str (negsuc n) = Option.get_or (catalog_name (suc n)) (codes "RZI_ERR_UNKNOWN")

-- The errno constants of <errno.h> that `rzi_err_from_errno` names. A constant that the C
-- library leaves undefined is given the value of the one beside it.
pub record Errno : Type 0 where
  pub einval : ℕ
  pub ewouldblock : ℕ
  pub eagain : ℕ
  pub ealready : ℕ
  pub ebusy : ℕ
  pub enotsup : ℕ
  pub enosys : ℕ
  pub eopnotsupp : ℕ
  pub enomem : ℕ
  pub enoent : ℕ
  pub enodata : ℕ
  pub emsgsize : ℕ
  pub enametoolong : ℕ
  pub etimedout : ℕ
  pub eoverflow : ℕ
  pub enospc : ℕ
  pub ebadmsg : ℕ
  pub enodev : ℕ
  pub enetdown : ℕ
  pub eacces : ℕ
  pub eperm : ℕ
  pub eexist : ℕ

-- The second switch of `rzi_err_from_errno`, on a positive errno; the last case is `default`.
pub errno_err : Errno → ℕ → Err
errno_err e n =
    if n == e.einval
    then invalid
    else if n == e.ewouldblock
    then not_ready
    else if n == e.eagain
    then not_ready
    else if n == e.ealready
    then already
    else if n == e.ebusy
    then busy
    else if n == e.enotsup
    then not_supported
    else if n == e.enosys
    then not_supported
    else if n == e.eopnotsupp
    then not_supported
    else if n == e.enomem
    then no_resource
    else if n == e.enoent
    then not_found
    else if n == e.enodata
    then no_data
    else if n == e.emsgsize
    then too_large
    else if n == e.enametoolong
    then too_large
    else if n == e.etimedout
    then timeout
    else if n == e.eoverflow
    then overflow
    else if n == e.enospc
    then no_resource
    else if n == e.ebadmsg
    then bad_message
    else if n == e.enodev
    then no_device
    else if n == e.enetdown
    then not_ready
    else if n == e.eacces
    then denied
    else if n == e.eperm
    then denied
    else if n == e.eexist
    then already
    else io

-- `rzi_err_from_errno`.
unfoldable pub err_from_errno : Errno → ℤ → ℤ
err_from_errno e (pos n) = pos 0
err_from_errno e (negsuc n) = elim (catalog_name (suc n)) [
  | some _ ↦ negsuc n
  | none ↦ fail (errno_err e (suc n))
]
