-- ===== src/Storage/Records.antt =====
-- Versioned records: the codec round trip in both directions, and the whole path through storage.
use rzi.Prelude.{
  ℕ, zero, suc, ◌+◌, ◌-◌, ◌%◌, ◌^◌, ◌≤◌, ◌<◌, ◌≡◌, ◌≢◌, ◌∙◌, refl, sym, ap, subst, false, Option,
  some, List, [], ◌∷◌, ◌++◌, pos, length, take, drop, take-append-drop, take_add, drop_add,
  length-take, length-drop, arith,
}
use rzi.Storage.{
  Kernel, Config, Storage, init, write, record_magic, record_crc, record_head, encode_record,
  decode_record, write_record, read_record,
}
use rzi.Storage.Values.{IsSettings, Wrote, write-Wrote}

abbrev pub IsBytes : List ℕ → Type 0
IsBytes [] = Unit
IsBytes (b ∷ bs) = (b < 256) × IsBytes bs

-- What Zephyr documents of the byte order helpers: they are inverse to one another on words of
-- their width and on that many bytes; and a CRC has 32 bits.
pub record IsByteOrder (k : Kernel) : Type 0 where
  pub length16 : (v : ℕ) → length (k.put_le16 v) ≡ 2
  pub length32 : (v : ℕ) → length (k.put_le32 v) ≡ 4
  pub get_put16 : (v : ℕ) → v < 2 ^ 16 → k.get_le16 (k.put_le16 v) ≡ v
  pub get_put32 : (v : ℕ) → v < 2 ^ 32 → k.get_le32 (k.put_le32 v) ≡ v
  pub put_get16 : (l : List ℕ) → IsBytes l → length l ≡ 2 → k.put_le16 (k.get_le16 l) ≡ l
  pub put_get32 : (l : List ℕ) → IsBytes l → length l ≡ 4 → k.put_le32 (k.get_le32 l) ≡ l
  pub get_bound16 : (l : List ℕ) → IsBytes l → length l ≡ 2 → k.get_le16 l < 2 ^ 16
  pub crc_bound : (c : ℕ) (l : List ℕ) → k.crc32_ieee_update c l < 2 ^ 32

two : (l : List ℕ) → length l ≡ 2 → (x : ℕ) × (y : ℕ) × (l ≡ x ∷ y ∷ [])
two [] h = absurd (omega arith)
two (x ∷ []) h = absurd (omega arith)
two (x ∷ y ∷ []) h = (x, y, refl)
two (x ∷ y ∷ z ∷ l) h = absurd (omega arith)

four :
    (l : List ℕ) → length l ≡ 4 → (x : ℕ) × (y : ℕ) × (z : ℕ) × (w : ℕ) × (l ≡ x ∷ y ∷ z ∷ w ∷ [])
four [] h = absurd (omega arith)
four (x ∷ []) h = absurd (omega arith)
four (x ∷ y ∷ []) h = absurd (omega arith)
four (x ∷ y ∷ z ∷ []) h = absurd (omega arith)
four (x ∷ y ∷ z ∷ w ∷ []) h = (x, y, z, w, refl)
four (x ∷ y ∷ z ∷ w ∷ u ∷ l) h = absurd (omega arith)

-- The fields of a record, where the decoder reads them.
record Layout (a b c d e l : List ℕ) : Type 0 where
  size : length l ≡ 12 + length e
  head : take 8 l ≡ a ++ (b ++ c)
  magic : take 4 l ≡ a
  version_at : take 2 (drop 4 l) ≡ b
  size_at : take 2 (drop 6 l) ≡ c
  crc_at : take 4 (drop 8 l) ≡ d
  payload : drop 12 l ≡ e

layout :
    (a b c d e : List ℕ)
    → length a ≡ 4
    → length b ≡ 2
    → length c ≡ 2
    → length d ≡ 4
    → Layout a b c d e ((a ++ (b ++ c)) ++ (d ++ e))
layout a b c d e ha hb hc hd =
    let (a0, a1, a2, a3, ea) = four a ha in
    let (b0, b1, eb) = two b hb in
    let (c0, c1, ec) = two c hc in
    let (d0, d1, d2, d3, ed) = four d hd in
    rw (ea, eb, ec, ed)
      (record {
        size = omega arith;
        head = refl;
        magic = refl;
        version_at = refl;
        size_at = refl;
        crc_at = refl;
        payload = refl;
      })

take_all : (l : List ℕ) → take (length l) l ≡ l
take_all [] = refl
take_all (x ∷ l) = ap (λ (r : List ℕ). x ∷ r) (take_all l)

IsBytes-take : (n : ℕ) (l : List ℕ) → IsBytes l → IsBytes (take n l)
IsBytes-take zero l h = tt
IsBytes-take (suc n) [] h = tt
IsBytes-take (suc n) (x ∷ l) h = (h.0, IsBytes-take n l h.1)

IsBytes-drop : (n : ℕ) (l : List ℕ) → IsBytes l → IsBytes (drop n l)
IsBytes-drop zero l h = h
IsBytes-drop (suc n) [] h = tt
IsBytes-drop (suc n) (x ∷ l) h = IsBytes-drop n l h.1

IsBytes-field : (n m : ℕ) (l : List ℕ) → IsBytes l → IsBytes (take m (drop n l))
IsBytes-field n m l h = IsBytes-take m (drop n l) (IsBytes-drop n l h)

length-field : (n m : ℕ) (l : List ℕ) → n + m ≤ length l → length (take m (drop n l)) ≡ m
length-field n m l h = omega (arith, length-take m (drop n l), length-drop n l)

take_eight : (l : List ℕ) → take 4 l ++ (take 2 (drop 4 l) ++ take 2 (drop 6 l)) ≡ take 8 l
take_eight l =
    ap (λ (r : List ℕ). take 4 l ++ r)
      (ap (λ (t : List ℕ). take 2 (drop 4 l) ++ take 2 t) (sym (drop_add 4 2 l))
        ∙ take_add 2 2 (drop 4 l))
    ∙ take_add 4 4 l

reassemble : (l : List ℕ) → take 8 l ++ (take 4 (drop 8 l) ++ drop 12 l) ≡ l
reassemble l =
    ap (λ (r : List ℕ). take 8 l ++ r)
      (ap (λ (t : List ℕ). take 4 (drop 8 l) ++ t) (sym (drop_add 8 4 l))
        ∙ take-append-drop 4 (drop 8 l))
    ∙ take-append-drop 8 l

take_rest : (l : List ℕ) (n : ℕ) → take (length l - n) (drop n l) ≡ drop n l
take_rest l n = ap (λ t. take t (drop n l)) (sym (length-drop n l)) ∙ take_all (drop n l)

mod_small : (n : ℕ) → n < 2 ^ 16 → n % 2 ^ 16 ≡ n
mod_small n h = omega arith

nonempty : (v : List ℕ) → v ≢ [] → 0 < length v
nonempty [] h = absurd (h refl)
nonempty (x ∷ v) h = omega arith

module _ (k : Kernel) (config : Config) (law : IsByteOrder k) where
  -- What the decoder has checked when it accepts.
  record Accepted (bytes : List ℕ) (capacity version : ℕ) (v : List ℕ) : Type 0 where
    long : 12 < length bytes
    magic : k.get_le32 (take 4 bytes) ≡ record_magic
    version_at : k.get_le16 (take 2 (drop 4 bytes)) ≡ version
    nonzero : version ≢ 0
    size_at : k.get_le16 (take 2 (drop 6 bytes)) ≡ length bytes - 12
    crc_at : k.get_le32 (take 4 (drop 8 bytes)) ≡ record_crc k config (take 8 bytes) v
    payload : v ≡ take (length bytes - 12) (drop 12 bytes)
    fits : length bytes - 12 ≤ capacity

  length-encode_record :
      (version : ℕ) (v : List ℕ) → length (encode_record k config version v) ≡ 12 + length v
  unfolding encode_record
  length-encode_record version v =
      let l =
        layout (k.put_le32 record_magic) (k.put_le16 version) (k.put_le16 (length v % 2 ^ 16))
          (k.put_le32 (record_crc k config (record_head k config version v) v)) v (law.length32 _)
          (law.length16 _) (law.length16 _) (law.length32 _) in
      l.size

  -- An encoded record decodes to its version and payload, for a version that is not 0, a payload of
  -- 1 to 65535 bytes and a buffer that holds it.
  pub decode_record-encode_record :
      (version capacity : ℕ) (v : List ℕ)
      → version ≢ 0
      → version < 2 ^ 16
      → v ≢ []
      → length v < 2 ^ 16
      → length v ≤ capacity
      → decode_record k config (encode_record k config version v) capacity ≡ (pos 0, version, v)
  unfolding decode_record encode_record
  decode_record-encode_record version capacity v nz small ne fits room =
      let head = record_head k config version v in
      let crc = record_crc k config head v in
      let l : Layout (k.put_le32 record_magic) (k.put_le16 version) (k.put_le16 (length v % 2 ^ 16))
          (k.put_le32 crc) v (encode_record k config version v) =
        layout _ _ _ _ v (law.length32 _) (law.length16 _) (law.length16 _) (law.length32 _) in
      let size16 : k.get_le16 (k.put_le16 (length v % 2 ^ 16)) ≡ length v =
        law.get_put16 (length v % 2 ^ 16) (omega arith) ∙ omega arith in
      rw (l.size, l.head, l.magic, l.version_at, l.size_at, l.crc_at, l.payload)
        (rw
          (
            size16,
            law.get_put16 version small,
            law.get_put32 record_magic (omega arith),
            law.get_put32 crc (law.crc_bound _ _),
            take_all v,
          )
          (ground (arith, nz, room, nonempty v ne)))

  -- With byte order helpers that are inverse to one another, what decodes was encoded: a stored
  -- string of bytes that the decoder accepts is exactly the encoding of the version and the
  -- payload that it returns, the version is not 0, and the payload is not empty and fits the
  -- caller's buffer.
  pub decode_record_sound :
      (bytes : List ℕ) (capacity version : ℕ) (v : List ℕ)
      → IsBytes bytes
      → decode_record k config bytes capacity ≡ (pos 0, version, v)
      → (bytes ≡ encode_record k config version v)
        × (version ≢ 0)
        × (0 < length v)
        × (length v ≤ capacity)
  unfolding decode_record encode_record
  decode_record_sound bytes capacity version v isb h =
      let accepted : Accepted bytes capacity version v = record {
        long = ground (arith, h);
        magic = ground (arith, h);
        version_at = ground (arith, h);
        nonzero = ground (arith, h);
        size_at = ground (arith, h);
        crc_at = ground (arith, h);
        payload = ground (arith, h);
        fits = ground (arith, h);
      } in
      let long = accepted.long in
      let payload : v ≡ drop 12 bytes = accepted.payload ∙ take_rest bytes 12 in
      let size : length v ≡ length bytes - 12 = ap length payload ∙ length-drop 12 bytes in
      let head : record_head k config version v ≡ take 8 bytes =
        rw
          (
            size,
            mod_small (length bytes - 12) (
                subst (λ t. t < 2 ^ 16) accepted.size_at
                  (law.get_bound16 _ (IsBytes-field 6 2 bytes isb)
                    (length-field 6 2 bytes (omega arith)))),
            ← accepted.size_at,
            ← accepted.version_at,
            ← accepted.magic,
            law.put_get32 _ (IsBytes-take 4 bytes isb) (length-field 0 4 bytes (omega arith)),
            law.put_get16 _ (IsBytes-field 4 2 bytes isb) (length-field 4 2 bytes (omega arith)),
            law.put_get16 _ (IsBytes-field 6 2 bytes isb) (length-field 6 2 bytes (omega arith)),
          )
          (take_eight bytes) in
      let crc : k.put_le32 (record_crc k config (take 8 bytes) v) ≡ take 4 (drop 8 bytes) =
        rw (← accepted.crc_at)
          (law.put_get32 _ (IsBytes-field 8 4 bytes isb) (length-field 8 4 bytes (omega arith))) in
      (
        sym (rw (head, crc, payload) (reassemble bytes)),
        accepted.nonzero,
        omega (arith, size),
        omega (arith, size, accepted.fits),
      )

  -- With settings and byte order helpers that behave as documented, after a thread has written a
  -- record a thread reads back its version and payload into a buffer that holds it. Besides the
  -- write's success the conditions are a version of 16 bits and a build's limit of at most 2048
  -- bytes, and nothing else has been done in between.
  pub read_record-write_record :
      (namespace key : Option (List ℕ)) (version capacity : ℕ) (v : List ℕ) (s t : Storage k config)
      → IsSettings k
      → version < 2 ^ 16
      → config.record_max_size ≤ 2048
      → length v ≤ capacity
      → write_record k config false namespace key version (some v) s ≡ (pos 0, t)
      → read_record k config false namespace key false capacity t ≡ (pos 0, version, v, t)
  unfolding read_record write_record init
  read_record-write_record namespace key version capacity v s t settings small limit room h =
      let enc = encode_record k config version v in
      let facts : (version ≢ 0)
          × (v ≢ [])
          × (length v ≤ config.record_max_size)
          × (write k config false namespace key (some enc) s ≡ (pos 0, t)) =
        (ground (arith, h), (λ e. ground (arith, h, e)), ground (arith, h), ground (arith, h)) in
      let w : Wrote k config namespace key enc t =
        write-Wrote k config namespace key false enc s t settings facts.3 in
      let fits : length v < 2 ^ 16 = omega (arith, facts.2, limit) in
      let size : length enc ≡ 12 + length v = length-encode_record version v in
      ground (
        arith,
        facts.2,
        room,
        w.built,
        w.ready,
        w.stored,
        size,
        nonempty v facts.1,
        take_all enc,
        settings.val_len_saved w.before w.name enc w.saved,
        settings.load_saved w.before w.name enc w.saved,
        decode_record-encode_record version capacity v facts.0 small facts.1 fits room,
      )
