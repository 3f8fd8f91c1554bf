-- ===== src/Tests/Fuota.antt =====
-- The firmware update coordinator over a backend with an image of 300 bytes.
use rzi.Prelude.{
  ℕ, zero, suc, ◌≡◌, refl, Bool, true, false, List, [], ◌∷◌, ◌++◌, ℤ, pos, none, some, take, drop,
  append-nil, ◌%◌, if◌then◌else◌, arith,
}
use rzi.Power.{initial}
use rzi.Power.Balance.{initial-IsBalanced}
use rzi.Lorawan.{BackendEvent, FuotaKind}
use rzi.Fuota.{State, idle, transferring, Platform, Fuota, copy_from}
use rzi.Fuota.Session.{on_event}
use rzi.Fuota.Lock.{IsLocked}
use rzi.Fuota.Runs.{
  Request, event, install, install_begin, install_copy, install_end, begin, run, run-IsLocked,
  session_event, session-ends,
}
use rzi.Fuota.Image.{IsCopyable, copy_from-copies}
use rzi.Tests.Basics.{linux}

abbrev count_up : ℕ → List ℕ
count_up zero = []
count_up (suc n) = n % 256 ∷ count_up n

abbrev image : List ℕ
image = count_up 300

-- The world is what stands in the slot, and what is buffered in front of it.
abbrev Flash : Type 0
Flash = List ℕ × List ℕ

abbrev slot : Flash → List ℕ
slot w = w.0

abbrev buffer : Flash → List ℕ
buffer w = w.1

abbrev read : ℕ → ℕ → Flash → ℤ × List ℕ × Flash
read offset size w = (pos 0, take size (drop offset image), w)

-- Bytes stay in the buffer until a flush.
abbrev put : List ℕ → Bool → Flash → Flash
put chunk true w = (w.0 ++ (w.1 ++ chunk), [])
put chunk false w = (w.0, w.1 ++ chunk)

abbrev platform : Platform
platform = record {
  World = Flash;
  auto_lock = true;
  auto_apply = false;
  keepalive = true;
  image_manager = true;
  has_capability = true;
  errno = linux;
  ops = some (record {
    start_clock_sync = none;
    get_image_size = none;
    read_image = some read;
    reboot = some (λ w. (pos 0, w));
  });
  get_le16 = λ l. 0;
  get_le32 = λ l. 0;
  flash_img_init = λ w. (pos 0, ([], []));
  flash_img_buffered_write = λ chunk flush w. (pos 0, put chunk flush w);
  boot_request_upgrade = λ w. (pos 0, w);
}

abbrev coordinator : Bool → Fuota platform
coordinator image_ready = record {
  started = true;
  state = if image_ready then State.complete else idle;
  image_ready = image_ready;
  power_flash_held = false;
  image_size = 300;
  expected_size = 0;
  last_error = pos 0;
  callbacks = record {
    state_changed = some 1;
    session_started = none;
    complete_called = some 2;
    user_data = 0;
  };
  ops = platform.ops;
  power = initial;
  calls = [];
  world = ([], []);
}

coordinator-IsLocked : (b : Bool) → IsLocked platform (coordinator b)
unfolding initial
coordinator-IsLocked true = record { balanced = initial-IsBalanced; once = refl; follows = refl }
coordinator-IsLocked false = record { balanced = initial-IsBalanced; once = refl; follows = refl }

abbrev requests : List Request
requests =
    begin false
    ∷ event (some BackendEvent.backend_joined)
    ∷ event (session_event platform FuotaKind.session_started)
    ∷ install false
    ∷ install_begin false
    ∷ event (session_event platform FuotaKind.session_ended)
    ∷ install_copy
    ∷ install_end (pos 0)
    ∷ []

run-IsLocked_example : IsLocked platform (run platform requests (coordinator false))
run-IsLocked_example =
    run-IsLocked platform requests (coordinator false) (coordinator-IsLocked false)

session-ends_example :
    let t =
      on_event platform
        (session_event platform FuotaKind.session_ended)
        (on_event platform (session_event platform FuotaKind.session_started) (coordinator true)) in
    (t.state ≡ transferring) × (t.power_flash_held ≡ true)
session-ends_example = session-ends platform (coordinator true) (coordinator-IsLocked true) refl

queued :
    (chunk : List ℕ) (flush : Bool) (w : Flash)
    → slot (put chunk flush w) ++ buffer (put chunk flush w) ≡ slot w ++ (buffer w ++ chunk)
queued chunk true w = append-nil (w.0 ++ (w.1 ++ chunk))
queued chunk false w = refl

platform-IsCopyable : IsCopyable platform image read slot buffer
platform-IsCopyable = record {
  reads = λ offset size w h. refl;
  read_keeps = λ offset size w. (refl, refl);
  writes = λ chunk flush w h. queued chunk flush w;
  flushes = λ chunk w h. refl;
  write_nonpositive = λ chunk flush w n h. cc;
}

copied : (copy_from platform read 300 0 300 ([], [])).0 ≡ pos 0
unfolding copy_from
copied = refl

copy_from-copies_example :
    let t = (copy_from platform read 300 0 300 ([], [])).1 in
    (slot t ≡ [] ++ take 300 (drop 0 image)) × (buffer t ≡ [])
copy_from-copies_example =
    copy_from-copies platform image read slot buffer platform-IsCopyable 300 0 300 ([], [])
      (omega arith) (omega arith) refl copied
