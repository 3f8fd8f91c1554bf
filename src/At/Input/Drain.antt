-- ===== src/At/Input/Drain.antt =====
-- What a round of the AT thread makes of the bytes in the ring buffer.
use rzi.Prelude.{
  ℕ, zero, suc, ◌<◌, ◌≡◌, refl, false, List, [], ◌∷◌, ◌++◌, length, take, drop, length-drop,
  length-take, take-append-drop, if◌then◌else◌, arith, Bool-cases, sym, inl, inr, ◌==◌, ap,
}
use rzi.At.{Service, Env, test_param_overflow}
use rzi.At.Output.{respond_status}
use rzi.At.Registry.{Registry}
use rzi.At.Parser.{Parser, reset, feed_all}
use rzi.At.Parser.Lines.{feed_all-append}
use rzi.At.Input.{RingBuffer, Input, drain, process_input, chunk_size}

-- A ring buffer is a queue of bytes that can be told from its state.
pub record IsQueue (b : RingBuffer) (contents : b.Ring → List ℕ) : Type 0 where
  pub gets : (n : ℕ) (ring : b.Ring) → (b.ring_buf_get n ring).0 ≡ take n (contents ring)
  pub leaves : (n : ℕ) (ring : b.Ring) → contents (b.ring_buf_get n ring).1 ≡ drop n (contents ring)

fed_none : (env : Env) (r : Registry) (p : Parser) (s : Service) → feed_all env r [] p s ≡ (p, s)
unfolding feed_all
fed_none env r p s = refl

no_bytes : (l : List ℕ) → length (take chunk_size l) ≡ 0 → l ≡ []
no_bytes [] h = refl
no_bytes (x ∷ l) h = absurd (omega (arith, h))

module _ (b : RingBuffer) (contents : b.Ring → List ℕ) (law : IsQueue b contents) (env : Env)
    (r : Registry) where
  drain-feeds :
      (fuel : ℕ) (ring : b.Ring) (p : Parser) (s : Service)
      → length (contents ring) < fuel
      → let (ring', p', s') = drain b env r fuel ring p s in
        (contents ring' ≡ []) × ((p', s') ≡ feed_all env r (contents ring) p s)
  unfolding drain
  drain-feeds zero ring p s room = absurd (omega arith)
  drain-feeds (suc fuel) ring p s room =
      let (bytes, ring') = b.ring_buf_get chunk_size ring in
      let (p', s') = feed_all env r bytes p s in
      let taken = law.gets chunk_size ring in
      let left = law.leaves chunk_size ring in
      elim (Bool-cases (length bytes == 0)) [
        | inl dry ↦
            let empty : contents ring ≡ [] =
              no_bytes (contents ring) (ground (arith, dry, ap length taken)) in
            rw dry (rw (left, empty) (refl, sym (fed_none env r p s)))
        | inr wet ↦
            let whole : bytes ++ contents ring' ≡ contents ring =
              rw (taken, left) (take-append-drop chunk_size (contents ring)) in
            let shorter : length (contents ring') < fuel = ground (
              arith,
              wet,
              room,
              ap length taken,
              ap length left,
              length-take chunk_size (contents ring),
              length-drop chunk_size (contents ring),
            ) in
            let later = drain-feeds fuel ring' p' s' shorter in
            rw (wet, ← whole, feed_all-append env r bytes (contents ring') p s) later
      ]

  -- A round of the input over a ring buffer that is a queue, with fuel for more rounds than there
  -- are bytes, empties the ring and the overflow flag, and feeds all of the ring's bytes to the
  -- parser, in order and however they were cut into chunks; after an overflow the parser is first
  -- reset and the overflow status is sent.
  pub process_input-feeds :
      (fuel : ℕ) (i : Input b) (p : Parser) (s : Service)
      → length (contents i.rx_ring) < fuel
      → let bytes = contents i.rx_ring in
        let (i', p', s') = process_input b env r fuel i p s in
        (contents i'.rx_ring ≡ [])
        × (i'.rx_overflow ≡ false)
        × ((p', s') ≡ (
            if i.rx_overflow
            then feed_all env r bytes reset (respond_status env test_param_overflow s).1
            else feed_all env r bytes p s))
  unfolding process_input
  process_input-feeds fuel i p s room =
      let s' = (respond_status env test_param_overflow s).1 in
      elim (Bool-cases i.rx_overflow) [
        | inl lost ↦
            let (empty, fed) = drain-feeds fuel i.rx_ring reset s' room in
            rw lost (empty, refl, fed)
        | inr kept ↦
            let (empty, fed) = drain-feeds fuel i.rx_ring p s room in rw kept (empty, refl, fed)
      ]
