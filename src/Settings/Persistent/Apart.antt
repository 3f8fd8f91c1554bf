-- ===== src/Settings/Persistent/Apart.antt =====
-- What a write of one key of the storage service leaves of the others.
use rzi.Prelude.{
  ℕ, ◌≡◌, ◌∙◌, refl, ap, inl, inr, Bool, true, false, ◌&&◌, ◌||◌, List, ℤ, pos, some, length,
  eq_bytes, eq_bytes_iff, is_zero, is_zero_iff, Bool-cases, ltb, ◌==◌, if◌then◌else◌, arith,
}
use rzi.Err.{Err, fail, err_from_errno}
use rzi.Err.Laws.{translated-zero}
use rzi.Storage.{Kernel, Config, Storage, init, write, write_record, build_name, encode_record}
use rzi.Storage.Names.{HasNoSlash, build_name-injective}
use rzi.Storage.Values.{IsSettings, write-Wrote}
use rzi.Settings.{lorawan_namespace, join_policy_version}
use rzi.Settings.Persistent.Reads.{IsRecordStore, SameAt, pair_of, init_again}

lorawan-HasNoSlash : HasNoSlash lorawan_namespace
lorawan-HasNoSlash = ground arith

module _ (k : Kernel) (config : Config) where
  -- What a write of `key` leaves of `other`.
  abbrev pub Apart : List ℕ → List ℕ → Storage k config → ℤ × Storage k config → Type 0
  Apart key other s (rc, t) =
      (is_zero rc && eq_bytes other key) ≡ false
      → let (rc', name) = build_name (some lorawan_namespace) (some other) in
        ((rc' ≡ pos 0) → SameAt k config name s.store t.store)

  same-Apart : (key other : List ℕ) (s : Storage k config) (rc : ℤ) → Apart key other s (rc, s)
  same-Apart key other s rc e built = record { load = λ n. refl; val_len = refl }

  either-Apart :
      (key other : List ℕ) (s : Storage k config) (b : Bool) (p q : ℤ × Storage k config)
      → Apart key other s p
      → Apart key other s q
      → Apart key other s (if b then p else q)
  either-Apart key other s true p q f g = f
  either-Apart key other s false p q f g = g

  module _ (law : IsSettings k) (apart : IsRecordStore k) where
    pub write-ready :
        (key v : List ℕ) (s : Storage k config)
        → let (rc, t) = write k config false (some lorawan_namespace) (some key) (some v) s in
          (s.initialized || is_zero rc) ≡ true → t.initialized ≡ true
    unfolding write init
    write-ready key v s up = ground (
      arith,
      up,
      translated-zero k.errno (k.settings_subsys_init s.store).0 (law.init_nonpositive s.store),
    )

    write-SameAt :
        (key name v : List ℕ) (s : Storage k config)
        → s.initialized ≡ true
        → let (rc, t) = write k config false (some lorawan_namespace) (some key) (some v) s in
          (is_zero rc && eq_bytes name (build_name (some lorawan_namespace) (some key)).1) ≡ false
          → SameAt k config name s.store t.store
    unfolding write err_from_errno
    write-SameAt key name v s up other =
        let saved = (build_name (some lorawan_namespace) (some key)).1 in
        let (rc, store) = k.settings_save_one s.store saved v in
        let done : is_zero rc ≡ true → is_zero (err_from_errno k.errno rc) ≡ true =
          λ z. rw ((is_zero_iff rc).0 z) refl in
        elim (Bool-cases (is_zero rc && eq_bytes name saved)) [
          | inl both ↦ record {
            load = λ n. ground (arith, init_again k config s up, both, done, other);
            val_len = ground (arith, init_again k config s up, both, done, other);
          }
          | inr kept ↦ record {
            load = λ n.
                ground
                  (arith, init_again k config s up, apart.load_kept s.store saved name v n kept);
            val_len =
                ground
                  (arith, init_again k config s up, apart.val_len_kept s.store saved name v kept);
          }
        ]

    -- A write of one key does not touch what is stored under another.
    pub others-SameAt :
        (key other v : List ℕ) (s : Storage k config)
        → s.initialized ≡ true
        → Apart key other s (write k config false (some lorawan_namespace) (some key) (some v) s)
    others-SameAt key other v s up apart_from built =
        let (rc, t) = write k config false (some lorawan_namespace) (some key) (some v) s in
        let name = (build_name (some lorawan_namespace) (some other)).1 in
        let saved = (build_name (some lorawan_namespace) (some key)).1 in
        let same_key : is_zero rc ≡ true → eq_bytes name saved ≡ true → eq_bytes other key ≡ true =
          λ z e.
            let w =
              write-Wrote k config (some lorawan_namespace) (some key) false v s t law
                (pair_of _ ((is_zero_iff rc).0 z)) in
            let built_other : build_name (some lorawan_namespace) (some other) ≡ (pos 0, w.name) =
              pair_of _ built
              ∙ ap (λ n. (pos 0, n)) ((eq_bytes_iff name saved).0 e ∙ ap (λ r. r.1) w.built) in
            (eq_bytes_iff other key).1 (
              (build_name-injective lorawan_namespace lorawan_namespace other key w.name
                lorawan-HasNoSlash lorawan-HasNoSlash built_other w.built).1) in
        write-SameAt key name v s up (ground (arith, same_key, apart_from))

    pub write_record-SameAt :
        (key other v : List ℕ) (s : Storage k config)
        → s.initialized ≡ true
        → Apart key other s (
            write_record k config false
              (some lorawan_namespace)
              (some key)
              join_policy_version
              (some v)
              s)
    unfolding write_record
    write_record-SameAt key other v s up =
        either-Apart key other s (length v == 0) _ _ (same-Apart key other s (fail Err.invalid)) (
          either-Apart key other s (ltb config.record_max_size (length v)) _ _
            (same-Apart key other s (fail Err.too_large))
            (others-SameAt key other (encode_record k config join_policy_version v) s up))

    pub write_record-ready :
        (key v : List ℕ) (s : Storage k config)
        → let (rc, t) =
            write_record k config false
              (some lorawan_namespace)
              (some key)
              join_policy_version
              (some v)
              s in
          (s.initialized || is_zero rc) ≡ true → t.initialized ≡ true
    unfolding write_record
    write_record-ready key v s up =
        let bytes = encode_record k config join_policy_version v in
        let ready = write-ready key bytes s in ground (arith, up, ready)
