-- ===== src/Tests/Basics.antt =====
-- Concrete runs for the error catalog and the power service.
use rzi.Prelude.{true, false, List, [], ◌∷◌, pos, negsuc}
use rzi.Err.{Errno, err_from_errno}
use rzi.Err.Laws.{IsPublic, err_from_errno-IsPublic}
use rzi.Power.{initial, run, Request, switch, take_lock, drop_lock, rest, lock_flash, lock_lorawan}
use rzi.Power.Balance.{IsBalanced, run-IsBalanced}

-- The values of Linux.
abbrev pub linux : Errno
linux = record {
  einval = 22;
  ewouldblock = 11;
  eagain = 11;
  ealready = 114;
  ebusy = 16;
  enotsup = 95;
  enosys = 38;
  eopnotsupp = 95;
  enomem = 12;
  enoent = 2;
  enodata = 61;
  emsgsize = 90;
  enametoolong = 36;
  etimedout = 110;
  eoverflow = 75;
  enospc = 28;
  ebadmsg = 74;
  enodev = 19;
  enetdown = 100;
  eacces = 13;
  eperm = 1;
  eexist = 17;
}

err_from_errno-IsPublic_example : IsPublic (err_from_errno linux (negsuc 1))
err_from_errno-IsPublic_example = err_from_errno-IsPublic linux (negsuc 1)

abbrev session : List Request
session =
    switch false false
    ∷ take_lock false lock_flash
    ∷ take_lock true lock_flash
    ∷ drop_lock false 4
    ∷ rest false (pos 5)
    ∷ take_lock false lock_lorawan
    ∷ drop_lock false lock_flash
    ∷ []

run-IsBalanced_example : IsBalanced (run true session initial)
run-IsBalanced_example = run-IsBalanced true session
