-- ===== src/Settings/Persistent/Reads.antt =====
-- What is read of the storage service: it can be read again, and depends only on what is stored
-- under its own name.
use rzi.Prelude.{
  ℕ, ◌≡◌, ◌≢◌, refl, inl, inr, true, false, ◌&&◌, List, ℤ, pos, negsuc, some, length, eq_bytes,
  is_zero, is_zero_iff, is_negative, Bool-cases, arith,
}
use rzi.Err.{Errno, err_from_errno}
use rzi.Err.Laws.{translated-zero}
use rzi.Storage.{Kernel, Config, Storage, init, read, read_record, load_record, build_name}
use rzi.Storage.Values.{IsSettings, init-ready}

-- What Zephyr's settings with a backend of whole records (NVS or ZMS) promise besides IsSettings: a
-- save changes no other name, one that fails changes nothing, and a value that fills the buffer has
-- its size.
pub record IsRecordStore (k : Kernel) : Type 0 where
  pub load_kept :
      (st : k.Store) (name other bytes : List ℕ) (n : ℕ)
      → (is_zero (k.settings_save_one st name bytes).0 && eq_bytes other name) ≡ false
      → k.settings_load_one (k.settings_save_one st name bytes).1 other n
        ≡ k.settings_load_one st other n
  pub val_len_kept :
      (st : k.Store) (name other bytes : List ℕ)
      → (is_zero (k.settings_save_one st name bytes).0 && eq_bytes other name) ≡ false
      → k.settings_get_val_len (k.settings_save_one st name bytes).1 other
        ≡ k.settings_get_val_len st other
  pub load_length :
      (st : k.Store) (name : List ℕ) (n : ℕ)
      → (k.settings_load_one st name n).0 ≡ pos n
      → length (k.settings_load_one st name n).1 ≡ n

pub pair_of {ℓ} : {A : Type ℓ} (r : ℤ × A) → r.0 ≡ pos 0 → r ≡ (pos 0, r.1)
pair_of (rc, x) e = rw e refl

negative-fails : (e : Errno) (rc : ℤ) → is_negative rc ≡ true → err_from_errno e rc ≢ pos 0
negative-fails e (pos n) negative = cc
negative-fails e (negsuc n) negative =
    λ zero. absurd (negsuc-pos (translated-zero e (negsuc n) (λ m h. cc) zero))
  where
    negsuc-pos : negsuc n ≢ pos 0
    negsuc-pos h = cc

module _ (k : Kernel) (config : Config) where
  -- One name is stored as before.
  pub record SameAt (name : List ℕ) (st st' : k.Store) : Type 0 where
    pub load : (n : ℕ) → k.settings_load_one st' name n ≡ k.settings_load_one st name n
    pub val_len : k.settings_get_val_len st' name ≡ k.settings_get_val_len st name

  pub init_again :
      (s : Storage k config) → s.initialized ≡ true → init k config false s ≡ (pos 0, s)
  unfolding init
  init_again s up = rw up refl

  load_record_of :
      (name : List ℕ) (st st' : k.Store) (stored_size : ℤ)
      → ((n : ℕ) → k.settings_load_one st' name n ≡ k.settings_load_one st name n)
      → k.settings_get_val_len st name ≡ stored_size
      → k.settings_get_val_len st' name ≡ stored_size
      → load_record k config name st' ≡ load_record k config name st
  load_record_of name st st' (pos n) same e e' = rw (load_record, e, e', same n) refl
  load_record_of name st st' (negsuc n) same e e' = rw (load_record, e, e') refl

  load_record-SameAt :
      (name : List ℕ) (st st' : k.Store)
      → SameAt name st st'
      → load_record k config name st' ≡ load_record k config name st
  load_record-SameAt name st st' same = load_record_of name st st' _ same.load refl same.val_len

  -- What is read of a key depends on what is stored under its name.
  pub read-SameAt :
      (namespace key : List ℕ) (n : ℕ) (s t : Storage k config)
      → s.initialized ≡ true
      → t.initialized ≡ true
      → let (rc, name) = build_name (some namespace) (some key) in
        ((rc ≡ pos 0) → SameAt name s.store t.store)
        → let (code, v, _) = read k config false (some namespace) (some key) false n s in
          let (code', v', _) = read k config false (some namespace) (some key) false n t in
          (code' ≡ code) × (v' ≡ v)
  unfolding read
  read-SameAt namespace key n s t up up' same =
      let (rc, name) = build_name (some namespace) (some key) in
      elim (Bool-cases (is_zero rc)) [
        | inl z ↦
            let here = (same ((is_zero_iff rc).0 z)).load n in
            ground (arith, init_again s up, init_again t up', z, here)
        | inr z ↦ ground (arith, init_again s up, init_again t up', z)
      ]

  pub read_record-SameAt :
      (namespace key : List ℕ) (n : ℕ) (s t : Storage k config)
      → s.initialized ≡ true
      → t.initialized ≡ true
      → let (rc, name) = build_name (some namespace) (some key) in
        ((rc ≡ pos 0) → SameAt name s.store t.store)
        → let (code, version, v, _) =
            read_record k config false (some namespace) (some key) false n s in
          let (code', version', v', _) =
            read_record k config false (some namespace) (some key) false n t in
          (code' ≡ code) × (version' ≡ version) × (v' ≡ v)
  unfolding read_record
  read_record-SameAt namespace key n s t up up' same =
      let (rc, name) = build_name (some namespace) (some key) in
      elim (Bool-cases (is_zero rc)) [
        | inl z ↦
            let here = load_record-SameAt name s.store t.store (same ((is_zero_iff rc).0 z)) in
            ground (arith, init_again s up, init_again t up', z, here)
        | inr z ↦ ground (arith, init_again s up, init_again t up', z)
      ]

  pub read-pure :
      (namespace key : List ℕ) (n : ℕ) (s : Storage k config)
      → s.initialized ≡ true
      → (read k config false (some namespace) (some key) false n s).2 ≡ s
  unfolding read
  read-pure namespace key n s up = ground (arith, init_again s up)

  pub record-pure :
      (namespace key : List ℕ) (n : ℕ) (s : Storage k config)
      → s.initialized ≡ true
      → (read_record k config false (some namespace) (some key) false n s).3 ≡ s
  unfolding read_record
  record-pure namespace key n s up = ground (arith, init_again s up)

  module _ (law : IsSettings k) (apart : IsRecordStore k) where
    pub read-again :
        (namespace key : List ℕ) (n : ℕ) (s : Storage k config)
        → (read k config false (some namespace) (some key) false n s).0 ≡ pos 0
        → let (rc, v, t) = read k config false (some namespace) (some key) false n s in
          (t.initialized ≡ true)
          × ((read k config false (some namespace) (some key) false n t).0 ≡ rc)
          × ((read k config false (some namespace) (some key) false n t).1 ≡ v)
    unfolding read
    read-again namespace key n s ok =
        let (rc, s') = init k config false s in
        let ready = init-ready k config false s law in ground (arith, ok, ready, init_again s')

    pub record-again :
        (namespace key : List ℕ) (n : ℕ) (s : Storage k config)
        → (read_record k config false (some namespace) (some key) false n s).0 ≡ pos 0
        → let (rc, version, v, t) =
            read_record k config false (some namespace) (some key) false n s in
          (t.initialized ≡ true)
          × ((read_record k config false (some namespace) (some key) false n t).0 ≡ rc)
          × ((read_record k config false (some namespace) (some key) false n t).1 ≡ version)
          × ((read_record k config false (some namespace) (some key) false n t).2 ≡ v)
    unfolding read_record
    record-again namespace key n s ok =
        let (rc, s') = init k config false s in
        let ready = init-ready k config false s law in ground (arith, ok, ready, init_again s')

    pub length-read :
        (namespace key : List ℕ) (n : ℕ) (s : Storage k config)
        → (read k config false (some namespace) (some key) false n s).0 ≡ pos 0
        → length (read k config false (some namespace) (some key) false n s).1 ≡ n
    unfolding read
    length-read namespace key n s ok =
        let name = (build_name (some namespace) (some key)).1 in
        let st = (init k config false s).1.store in
        let bytes = (k.settings_load_one st name n).0 in
        ground (arith, ok, apart.load_length st name n, negative-fails k.errno bytes)
