-- ===== src/Storage/Values.antt =====
-- Raw values: what is written is read back, and the flash lock is balanced.
use rzi.Prelude.{
  ℕ, suc, ◌≡◌, ◌≢◌, inl, inr, Bool, true, false, Option, some, List, [], pos, length, if◌then◌else◌,
  is_zero, is_zero_iff, arith, Bool-cases,
}
use rzi.Err.Laws.{translated-zero}
use rzi.Power.{Power, lock_get, lock_put, lock_flash}
use rzi.Power.Balance.{IsBalanced, lock_put-lock_get, lock_get-IsBalanced, lock_put-IsBalanced}
use rzi.Storage.{
  Kernel, Config, Storage, init, read, write, delete, build_name, flash_get, flash_put, text_of,
}

-- What Zephyr documents of a value that was saved and is loaded into a buffer of its size, and of
-- saving and starting: the result is 0 or a negative errno.
pub record IsSettings (k : Kernel) : Type 0 where
  pub val_len_saved :
      (st : k.Store) (name bytes : List ℕ)
      → (k.settings_save_one st name bytes).0 ≡ pos 0
      → k.settings_get_val_len (k.settings_save_one st name bytes).1 name ≡ pos (length bytes)
  pub load_saved :
      (st : k.Store) (name bytes : List ℕ)
      → (k.settings_save_one st name bytes).0 ≡ pos 0
      → k.settings_load_one (k.settings_save_one st name bytes).1 name (length bytes)
        ≡ (pos (length bytes), bytes)
  pub save_nonpositive :
      (st : k.Store) (name bytes : List ℕ) (n : ℕ)
      → (k.settings_save_one st name bytes).0 ≢ pos (suc n)
  pub init_nonpositive : (st : k.Store) (n : ℕ) → (k.settings_subsys_init st).0 ≢ pos (suc n)

-- The locks of the power service are as they were, up to the record of the calls made.
abbrev pub SameLocks : Power → Power → Type 0
SameLocks p q = (q.lock_counts ≡ p.lock_counts) × (q.is_pm_locked ≡ p.is_pm_locked) × IsBalanced q

flash_taken :
    (p : Power)
    → IsBalanced p
    → (lock_get false lock_flash p).0 ≡ pos 0
    → SameLocks p (lock_put false lock_flash (lock_get false lock_flash p).1).1
flash_taken p b h = ground (
  arith,
  h,
  lock_put-lock_get lock_flash p b,
  lock_put-IsBalanced false lock_flash (lock_get false lock_flash p).1
      (lock_get-IsBalanced false lock_flash p b),
)

flash_refused :
    (p : Power)
    → IsBalanced p
    → (lock_get false lock_flash p).0 ≢ pos 0
    → (lock_get false lock_flash p).1 ≡ p
flash_refused p b h = ground (arith, h, lock_put-lock_get lock_flash p b)

module _ (k : Kernel) (config : Config) where
  -- What a successful write leaves behind.
  pub record Wrote (namespace key : Option (List ℕ)) (v : List ℕ) (t : Storage k config)
      : Type 0 where
    pub name : List ℕ
    pub built : build_name namespace key ≡ (pos 0, name)
    pub ready : t.initialized ≡ true
    pub before : k.Store
    pub saved : (k.settings_save_one before name v).0 ≡ pos 0
    pub stored : t.store ≡ (k.settings_save_one before name v).1
    pub some_bytes : v ≢ []

  pub init-ready :
      (isr : Bool) (s : Storage k config)
      → IsSettings k
      → (init k config isr s).0 ≡ pos 0
      → (init k config isr s).1.initialized ≡ true
  unfolding init
  init-ready isr s law h = ground (
    arith,
    h,
    translated-zero k.errno (k.settings_subsys_init s.store).0 (law.init_nonpositive s.store),
  )

  pub write-Wrote :
      (namespace key : Option (List ℕ)) (isr : Bool) (v : List ℕ) (s t : Storage k config)
      → IsSettings k
      → write k config isr namespace key (some v) s ≡ (pos 0, t)
      → Wrote namespace key v t
  unfolding write
  write-Wrote namespace key isr v s t law h = record {
    name = (build_name namespace key).1;
    built = ground (arith, h);
    ready = ground (arith, h, init-ready isr s law);
    before = (init k config isr s).1.store;
    saved = translated-zero k.errno _ (law.save_nonpositive _ _ _) (ground (arith, h));
    stored = ground (arith, h);
    some_bytes = λ e. ground (arith, h, e);
  }

  -- With settings that behave as documented, after a write from a thread that succeeded, a read of
  -- the same key into a buffer of the value's size succeeds, gives the bytes that were written and
  -- changes nothing.
  pub read-write :
      (namespace key : Option (List ℕ)) (v : List ℕ) (s t : Storage k config)
      → IsSettings k
      → write k config false namespace key (some v) s ≡ (pos 0, t)
      → read k config false namespace key false (length v) t ≡ (pos 0, v, t)
  unfolding read init
  read-write namespace key v s t law h =
      let w : Wrote namespace key v t = write-Wrote namespace key false v s t law h in
      ground
        (arith, w.built, w.ready, w.stored, w.some_bytes, law.load_saved w.before w.name v w.saved)

  init-power : (isr : Bool) (s : Storage k config) → (init k config isr s).1.power ≡ s.power
  unfolding init
  init-power isr s = ground arith

  locked_step :
      (s : Storage k config) (store : k.Store)
      → IsBalanced s.power
      → SameLocks s.power
          (if is_zero (flash_get k config s).0
            then flash_put k config (record (flash_get k config s).1 { store = store })
            else (flash_get k config s).1).power
  locked_step s store b = elim (Bool-cases (is_zero (lock_get false lock_flash s.power).0)) [
    | inl taken ↦
        ground (
          arith,
          taken,
          b,
          is_zero_iff (lock_get false lock_flash s.power).0,
          flash_taken s.power b,
        )
    | inr refused ↦ ground (
      arith,
      refused,
      b,
      is_zero_iff (lock_get false lock_flash s.power).0,
      flash_refused s.power b,
    )
  ]

  -- A write leaves every lock of the power service as it found it, on every path: whatever the
  -- arguments and whatever settings return, the reference taken for the flash is given back.
  pub write-SameLocks :
      (isr : Bool) (namespace key value : Option (List ℕ)) (s : Storage k config)
      → IsBalanced s.power
      → SameLocks s.power (write k config isr namespace key value s).1.power
  unfolding write
  write-SameLocks isr namespace key value s b =
      let s' = (init k config isr s).1 in
      let b' : IsBalanced s'.power = rw (init-power isr s) b in
      ground (
        arith,
        b,
        init-power isr s,
        locked_step s'
            (k.settings_save_one (flash_get k config s').1.store (build_name namespace key).1
              (text_of value)).1
            b',
      )

  -- So does a delete.
  pub delete-SameLocks :
      (isr : Bool) (namespace key : Option (List ℕ)) (s : Storage k config)
      → IsBalanced s.power
      → SameLocks s.power (delete k config isr namespace key s).1.power
  unfolding delete
  delete-SameLocks isr namespace key s b =
      let s' = (init k config isr s).1 in
      let b' : IsBalanced s'.power = rw (init-power isr s) b in
      ground (
        arith,
        b,
        init-power isr s,
        locked_step s' (k.settings_delete s'.store (build_name namespace key).1).1 b',
        locked_step s' s'.store b',
      )
