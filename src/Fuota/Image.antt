-- ===== src/Fuota/Image.antt =====
-- The copy of a received image into the update slot.
use rzi.Prelude.{
  [], ℕ, zero, suc, ◌+◌, ◌-◌, ◌%◌, ◌^◌, ◌≤◌, ◌<◌, ◌≡◌, ◌≢◌, refl, ◌⊎◌, inl, inr, ap, Bool, true,
  false, Bool-cases, List, ◌++◌, ℤ, pos, take, drop, min, take_add, drop_add, append_assoc,
  append-nil, is_zero_iff, leb, arith, ◌∙◌, sym,
}
use rzi.Err.Laws.{translated-zero}
use rzi.Fuota.{Platform, Fuota, copy_from, apply_chunk}

-- A backend that serves the bytes of `image`, and a writer with a slot in flash and a buffer in front
-- of it, both told from the world. Reading disturbs neither. An accepted write queues its bytes, in
-- order, behind those that are buffered, and may move the first of them to the slot; only a write with
-- `flush` leaves nothing in the buffer. The writer's result is 0 or a negative errno.
pub record IsCopyable (p : Platform) (image : List ℕ)
    (read : ℕ → ℕ → p.World → ℤ × List ℕ × p.World) (slot buffer : p.World → List ℕ) : Type 0 where
  pub reads :
      (offset size : ℕ) (w : p.World)
      → (read offset size w).0 ≡ pos 0
      → (read offset size w).1 ≡ take size (drop offset image)
  pub read_keeps :
      (offset size : ℕ) (w : p.World)
      → let w' = (read offset size w).2 in (slot w' ≡ slot w) × (buffer w' ≡ buffer w)
  pub writes :
      (chunk : List ℕ) (flush : Bool) (w : p.World)
      → (p.flash_img_buffered_write chunk flush w).0 ≡ pos 0
      → let w' = (p.flash_img_buffered_write chunk flush w).1 in
        slot w' ++ buffer w' ≡ slot w ++ (buffer w ++ chunk)
  pub flushes :
      (chunk : List ℕ) (w : p.World)
      → (p.flash_img_buffered_write chunk true w).0 ≡ pos 0
      → buffer (p.flash_img_buffered_write chunk true w).1 ≡ []
  pub write_nonpositive :
      (chunk : List ℕ) (flush : Bool) (w : p.World) (n : ℕ)
      → (p.flash_img_buffered_write chunk flush w).0 ≢ pos (suc n)

split_chunk :
    (remaining offset : ℕ) (image : List ℕ)
    → let n = min remaining apply_chunk in
      take n (drop offset image) ++ take (remaining - n) (drop (offset + n) image)
      ≡ take remaining (drop offset image)
split_chunk remaining offset image =
    let n = min remaining apply_chunk in
    let whole : n + (remaining - n) ≡ remaining = omega arith in
    rw (← drop_add offset n image, take_add n (remaining - n) (drop offset image), whole) refl

module _ (p : Platform) (image : List ℕ) (read : ℕ → ℕ → p.World → ℤ × List ℕ × p.World)
    (slot buffer : p.World → List ℕ) (law : IsCopyable p image read slot buffer) where
  -- A round of a copy that returns 0 was accepted, and the rest of the copy follows.
  copy_round :
      (fuel offset r : ℕ) (w : p.World)
      → (copy_from p read (suc fuel) offset (suc r) w).0 ≡ pos 0
      → let n = min (suc r) apply_chunk in
        let (rc, chunk, w') = read (offset % 2 ^ 32) n w in
        let (rc', w'') = p.flash_img_buffered_write chunk (leb (suc r) apply_chunk) w' in
        (rc ≡ pos 0)
        × (rc' ≡ pos 0)
        × (copy_from p read (suc fuel) offset (suc r) w
            ≡ copy_from p read fuel (offset + n) (suc r - n) w'')
  unfolding copy_from
  copy_round fuel offset r w done =
      let n = min (suc r) apply_chunk in
      let (rc, chunk, w') = read (offset % 2 ^ 32) n w in
      let (rc', w'') = p.flash_img_buffered_write chunk (leb (suc r) apply_chunk) w' in
      let translated =
        translated-zero p.errno rc' (law.write_nonpositive chunk (leb (suc r) apply_chunk) w') in
      ground (arith, done, translated, is_zero_iff rc, is_zero_iff rc')

  last_flush :
      (chunk : List ℕ) (flush : Bool) (w : p.World)
      → flush ≡ true
      → (p.flash_img_buffered_write chunk flush w).0 ≡ pos 0
      → buffer (p.flash_img_buffered_write chunk flush w).1 ≡ []
  last_flush chunk true w f put = law.flushes chunk w put
  last_flush chunk false w f put = ground (arith, f)

  -- The round's bytes are queued behind what was written before.
  round-queues :
      (offset n : ℕ) (flush : Bool) (w : p.World)
      → let (rc, chunk, w') = read offset n w in
        let (rc', w'') = p.flash_img_buffered_write chunk flush w' in
        (rc ≡ pos 0)
        → (rc' ≡ pos 0)
        → slot w'' ++ buffer w'' ≡ (slot w ++ buffer w) ++ take n (drop offset image)
  round-queues offset n flush w got put =
      let (rc, chunk, w') = read offset n w in
      let (same_slot, same_buffer) = law.read_keeps offset n w in
      law.writes chunk flush w' put
      ∙ rw (same_slot, same_buffer, law.reads offset n w got)
          (sym (append_assoc (slot w) (buffer w) (take n (drop offset image))))

  -- A copy that returns 0 has queued the bytes and, if there were any, has emptied the buffer.
  copy_from-queues :
      (fuel offset remaining : ℕ) (w : p.World)
      → remaining ≤ fuel
      → offset + remaining < 2 ^ 32
      → (copy_from p read fuel offset remaining w).0 ≡ pos 0
      → let t = (copy_from p read fuel offset remaining w).1 in
        (slot t ++ buffer t ≡ (slot w ++ buffer w) ++ take remaining (drop offset image))
        × ((buffer w ≡ []) ⊎ (0 < remaining) → buffer t ≡ [])
  unfolding copy_from
  copy_from-queues zero offset zero w room small done =
      (sym (append-nil (slot w ++ buffer w)), λ e. ground (arith, e))
  copy_from-queues zero offset (suc remaining) w room small done = absurd (omega arith)
  copy_from-queues (suc fuel) offset zero w room small done =
      (sym (append-nil (slot w ++ buffer w)), λ e. ground (arith, e))
  copy_from-queues (suc fuel) offset (suc r) w room small done =
      let remaining = suc r in
      let n = min remaining apply_chunk in
      let at = offset % 2 ^ 32 in
      let flush = leb remaining apply_chunk in
      let (rc, chunk, w') = read at n w in
      let (rc', w'') = p.flash_img_buffered_write chunk flush w' in
      let here : at ≡ offset = omega arith in
      let (got, put, step) = copy_round fuel offset r w done in
      let (queued, emptied) =
        copy_from-queues fuel (offset + n) (remaining - n) w'' (omega arith) (omega arith)
          (rw (← step) done) in
      let filled = round-queues at n flush w got put in
      let last : (buffer w'' ≡ []) ⊎ (0 < remaining - n) = elim (Bool-cases flush) [
        | inl f ↦ inl (last_flush chunk flush w' f put)
        | inr f ↦ inr (ground (arith, f))
      ] in
      (
        rw (step, queued, filled, here)
            (append_assoc (slot w ++ buffer w) (take n (drop offset image))
                (take (remaining - n) (drop (offset + n) image))
              ∙ ap (λ l. (slot w ++ buffer w) ++ l) (split_chunk remaining offset image)),
        λ _. rw step (emptied last),
      )

  -- For a backend that serves an image and a buffered writer that starts with nothing in its
  -- buffer, a copy that returns 0 has appended exactly the image's bytes from `offset` on,
  -- `remaining` of them, to the slot, in order and none twice, and has left nothing in the buffer. A
  -- fuel of `remaining` is enough, and the end lies below 2^32.
  pub copy_from-copies :
      (fuel offset remaining : ℕ) (w : p.World)
      → remaining ≤ fuel
      → offset + remaining < 2 ^ 32
      → buffer w ≡ []
      → (copy_from p read fuel offset remaining w).0 ≡ pos 0
      → let t = (copy_from p read fuel offset remaining w).1 in
        (slot t ≡ slot w ++ take remaining (drop offset image)) × (buffer t ≡ [])
  copy_from-copies fuel offset remaining w room small clean done =
      let t = (copy_from p read fuel offset remaining w).1 in
      let (queued, emptied) = copy_from-queues fuel offset remaining w room small done in
      let none_left = emptied (inl clean) in
      (
        sym (append-nil (slot t))
            ∙ ap (λ l. slot t ++ l) (sym none_left)
            ∙ queued
            ∙ ap (λ l. l ++ take remaining (drop offset image))
                (ap (λ l. slot w ++ l) clean ∙ append-nil (slot w)),
        none_left,
      )

-- The start of an image empties the slot and the buffer, and the boot request does not disturb the
-- slot; each result is 0 or a negative errno.
pub record IsSlot (p : Platform) (slot buffer : p.World → List ℕ) : Type 0 where
  pub init_empties :
      (w : p.World)
      → (p.flash_img_init w).0 ≡ pos 0
      → let w' = (p.flash_img_init w).1 in (slot w' ≡ []) × (buffer w' ≡ [])
  pub init_nonpositive : (w : p.World) (n : ℕ) → (p.flash_img_init w).0 ≢ pos (suc n)
  pub boot_keeps : (w : p.World) → slot (p.boot_request_upgrade w).1 ≡ slot w
