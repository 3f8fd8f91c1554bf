-- ===== src/At/Input.antt =====
-- src/at/at.c: bytes from the transport, through Zephyr's ring buffer, to the parser; the start of the
-- service is not modelled. The ring buffer is a parameter. `rzi_at_receive` may run in an ISR; each of its calls
-- is one step, as is one round of the thread.
pub mod Drain
use rzi.Prelude.{
  ℕ, zero, suc, Bool, true, false, not, ◌&&◌, List, [], ◌∷◌, ℤ, pos, Option, none, some, length,
  ◌==◌, if◌then◌else◌, is_zero, is_null,
}
use rzi.Err.{Err, fail}
use rzi.At.{Service, Env, test_param_overflow}
use rzi.At.Output.{respond_status}
use rzi.At.Registry.{Registry, process_extensions}
use rzi.At.Parser.{Parser, reset, feed_all}

-- `ring_buf_put` gives the number of bytes that it took; `ring_buf_get` gives at most as many bytes as
-- it is asked for.
pub record RingBuffer : Type 1 where
  pub Ring : Type 0
  pub ring_buf_put : List ℕ → Ring → ℕ × Ring
  pub ring_buf_get : ℕ → Ring → List ℕ × Ring

-- The size of the buffer in `process_input`.
abbrev pub chunk_size : ℕ
chunk_size = 64

abbrev bytes_or_empty : Option (List ℕ) → List ℕ
bytes_or_empty none = []
bytes_or_empty (some l) = l

module _ (b : RingBuffer) where
  -- `rx_ring` and `rx_overflow`.
  pub record Input : Type 0 where
    pub rx_ring : b.Ring
    pub rx_overflow : Bool

  -- `rzi_at_receive`; `bytes` is `none` for NULL, and `size` is then free.
  unfoldable pub receive : Option (List ℕ) → ℕ → Service → Input → ℤ × Input
  receive bytes size s i =
      let (written, ring) = b.ring_buf_put (bytes_or_empty bytes) i.rx_ring in
      if not s.started
      then (fail Err.not_ready, i)
      else if is_null bytes && not (size == 0)
      then (fail Err.invalid, i)
      else (
        if written == size then pos 0 else fail Err.overflow,
        record i { rx_ring = ring; rx_overflow = if written == size then i.rx_overflow else true },
      )

  -- The loop of `process_input` on fuel: each round but the last takes at least one byte from the
  -- ring, so one more than the bytes in it is enough.
  unfoldable pub drain : Env → Registry → ℕ → b.Ring → Parser → Service → b.Ring × Parser × Service
  drain env r zero ring p s = (ring, p, s)
  drain env r (suc fuel) ring p s =
      let (bytes, ring') = b.ring_buf_get chunk_size ring in
      let (p', s') = feed_all env r bytes p s in
      let rest = drain env r fuel ring' p' s' in if length bytes == 0 then (ring', p, s) else rest

  unfoldable pub process_input :
      Env → Registry → ℕ → Input → Parser → Service → Input × Parser × Service
  unfolding drain
  process_input env r fuel i p s =
      let p' = if i.rx_overflow then reset else p in
      let s' = if i.rx_overflow then (respond_status env test_param_overflow s).1 else s in
      let (ring, p'', s'') = drain env r fuel i.rx_ring p' s' in
      (record { rx_ring = ring; rx_overflow = false }, p'', s'')

  -- One round of `thread_entry`.
  unfoldable pub thread_round :
      Env → Registry → ℕ → Input → Parser → Service → Input × Parser × Service
  unfolding process_input
  thread_round env r fuel i p s =
      let (i', p', s') = process_input env r fuel i p s in (i', p', process_extensions r s')
