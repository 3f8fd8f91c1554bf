-- ===== src/Lorawan/Uplink/Guards.antt =====
-- What stands between a caller and the backend's uplink.
use rzi.Prelude.{ℕ, ◌≤◌, ◌≡◌, ◌≢◌, Bool, true, false, List, Option, some, pos, length, arith}
use rzi.Lorawan.{Host, Lorawan}
use rzi.Lorawan.Lifecycle.{check_started}
use rzi.Lorawan.Uplink.{max_payload, check_joined, send}

module _ (h : Host) where
  -- What an uplink needs of its caller and of the session.
  pub record IsAllowed (isr : Bool) (port size type : ℕ) (s : Lorawan h) : Type 0 where
    pub from_thread : isr ≡ false
    pub port_low : 1 ≤ port
    pub port_high : port ≤ 223
    pub size_fits : size ≤ max_payload
    pub known_type : type ≤ 1
    pub up : s.started ≡ true
    pub answered : (h.is_joined s.world).0 ≡ pos 0
    pub in_session : (h.is_joined s.world).1 ≡ true

  -- A send that does more to the world behind the service than to ask whether a session is active
  -- came from a thread, on a started service with an active session, for an application port from 1 to
  -- 223, at most 242 bytes and a known message type.
  pub send-guarded :
      (isr : Bool) (port : ℕ) (payload : Option (List ℕ)) (size type : ℕ) (s : Lorawan h)
      → (send h isr port payload size type s).1.world ≢ s.world
      → (send h isr port payload size type s).1.world ≢ (h.is_joined s.world).2
      → IsAllowed isr port size type s
  unfolding send check_joined check_started
  send-guarded isr port payload size type s touched used = ground (arith, touched, used)

  -- An allowed uplink with a payload reaches the backend, behind the pending MAC commands: its code and
  -- world are those of the backend's send for the port, bytes and type that were given.
  pub send-reaches :
      (port : ℕ) (payload : List ℕ) (type : ℕ) (s : Lorawan h)
      → IsAllowed false port (length payload) type s
      → let (rc, w) = h.send port payload type (h.mac_commands_on_uplink (h.is_joined s.world).2) in
        send h false port (some payload) (length payload) type s ≡ (rc, record s { world = w })
  unfolding send check_joined check_started
  send-reaches port payload type s a =
      ground
        (arith, a.port_low, a.port_high, a.size_fits, a.known_type, a.up, a.answered, a.in_session)
