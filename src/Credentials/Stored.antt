-- ===== src/Credentials/Stored.antt =====
-- What a getter gives after a setter, and which masks are ever in force.
use rzi.Prelude.{
  ℕ, ◌≡◌, inl, inr, refl, sym, ap, ◌∙◌, Bool, true, false, not, ◌&&◌, if◌then◌else◌, List, ℤ, pos,
  some, is_zero, Bool-cases, is_zero_iff, ==_iff, arith, length, ◌==◌,
}
use rzi.Lorawan.Lifecycle.{check_thread}
use rzi.Settings.{zeros}
use rzi.Credentials.{
  SettingsApi, Store, Credentials, ensure_loaded, guarded_write, candidate, read_all, loads,
}
use rzi.Credentials.Guard.{ensure_loaded-join_active}
use rzi.Credentials.Access.{
  Field, dev_eui, app_eui, app_key, gen_app_key, nwk_skey, app_skey, field, set_field, field_key,
  field_size, set_bytes, get_bytes, Session, is_session_key, is_abp, read_otaa, get_session,
  get_field, session_op,
}

field-set_field :
    (f : Field) (v : List ℕ) (s : Store)
    → field f (set_field f v s) ≡ record { bytes = v; is_set = true }
field-set_field dev_eui v s = refl
field-set_field app_eui v s = refl
field-set_field app_key v s = refl
field-set_field gen_app_key v s = refl
field-set_field nwk_skey v s = refl
field-set_field app_skey v s = refl

loaded-set_field : (f : Field) (v : List ℕ) (s : Store) → (set_field f v s).loaded ≡ s.loaded
loaded-set_field dev_eui v s = refl
loaded-set_field app_eui v s = refl
loaded-set_field app_key v s = refl
loaded-set_field gen_app_key v s = refl
loaded-set_field nwk_skey v s = refl
loaded-set_field app_skey v s = refl

module _ (a : SettingsApi) where
  pub ensure_loaded-loaded :
      (s : Credentials a)
      → (ensure_loaded a s).0 ≡ pos 0
      → (ensure_loaded a s).1.store.loaded ≡ true
  unfolding ensure_loaded candidate
  ensure_loaded-loaded s = elim (Bool-cases s.store.loaded) [
    | inl e ↦ λ _. rw e refl
    | inr e ↦ elim (Bool-cases (is_zero (read_all a loads s.settings).0)) [
      | inl z ↦ λ _. rw (e, z) refl
      | inr z ↦ λ ok. ground (arith, ok, e, z)
    ]
  ]

  pub ensure_loaded_again :
      (s : Credentials a) → s.store.loaded ≡ true → ensure_loaded a s ≡ (pos 0, s)
  unfolding ensure_loaded
  ensure_loaded_again s e = rw e refl

  -- What a write that succeeds does.
  pub guarded_write-stores :
      (key v : List ℕ) (update : Store → Store) (s : Credentials a)
      → (guarded_write a key v update s).0 ≡ pos 0
      → let t = (ensure_loaded a s).1 in
        let (rc, c) = a.setting_write key v t.settings in
        ((ensure_loaded a s).0 ≡ pos 0)
        × (s.store.join_active ≡ false)
        × (rc ≡ pos 0)
        × ((guarded_write a key v update s).1 ≡ record { store = update t.store; settings = c })
  unfolding guarded_write
  guarded_write-stores key v update s =
      let (rc, t) = ensure_loaded a s in
      let kept = ensure_loaded-join_active a s in
      elim (Bool-cases (is_zero rc)) [
        | inl z ↦ elim (Bool-cases t.store.join_active) [
          | inl busy ↦ λ ok. ground (arith, ok, z, busy)
          | inr free ↦ elim (Bool-cases (is_zero (a.setting_write key v t.settings).0)) [
            | inl w ↦ λ ok.
                ((is_zero_iff rc).0 z, sym kept ∙ free, (is_zero_iff _).0 w, rw (z, free, w) refl)
            | inr w ↦ λ ok. ground (arith, ok, z, free, w)
          ]
        ]
        | inr z ↦ λ ok. ground (arith, ok, z)
      ]

  code-first : (r : ℤ × a.C) → r.0 ≡ pos 0 → r ≡ (pos 0, r.1)
  code-first (rc, c) e = rw e refl

  get_loaded :
      (f : Field) (v : List ℕ) (s : Credentials a)
      → s.store.loaded ≡ true
      → field f s.store ≡ record { bytes = v; is_set = true }
      → get_bytes a false f (some (field_size f)) s ≡ (pos 0, v, s)
  unfolding get_bytes check_thread
  get_loaded f v s e held =
      let same : (field_size f == field_size f) ≡ true =
        (==_iff (field_size f) (field_size f)).1 refl in
      rw (same, ensure_loaded_again s e, held) refl

  set_bytes-sized :
      (f : Field) (v : List ℕ) (s : Credentials a)
      → (set_bytes a false f (some v) s).0 ≡ pos 0
      → (length v ≡ field_size f)
        × (set_bytes a false f (some v) s ≡ guarded_write a (field_key f) v (set_field f v) s)
  unfolding set_bytes check_thread
  set_bytes-sized f v s = elim (Bool-cases (length v == field_size f)) [
    | inl e ↦ λ ok. ((==_iff (length v) (field_size f)).0 e, rw e refl)
    | inr e ↦ λ ok. ground (arith, ok, e)
  ]

  -- What a set that succeeds has done, `t` being the loaded credentials.
  pub set_bytes-guarded_write :
      (f : Field) (v : List ℕ) (s : Credentials a)
      → (set_bytes a false f (some v) s).0 ≡ pos 0
      → let t = (ensure_loaded a s).1 in
        let r = (set_bytes a false f (some v) s).1 in
        (s.store.join_active ≡ false)
        × (length v ≡ field_size f)
        × (a.setting_write (field_key f) v t.settings ≡ (pos 0, r.settings))
        × (r.store ≡ set_field f v t.store)
        × (t.store.loaded ≡ true)
  set_bytes-guarded_write f v s ok =
      let (size, same) = set_bytes-sized f v s ok in
      let (ready, free, written, st) =
        guarded_write-stores (field_key f) v (set_field f v) s (rw (sym same) ok) in
      rw (same, st) (free, size, code-first _ written, refl, ensure_loaded-loaded s ready)

  module _ (b : Session) (started : Bool) where
    get_field_of_store :
        (f : Field) (v : List ℕ) (s : Credentials a) (w : b.W)
        → s.store.loaded ≡ true
        → field f s.store ≡ record { bytes = v; is_set = true }
        → get_field a b started false f (some (field_size f)) (s, w) ≡ (
            if is_session_key f && not (is_abp s.store.njm)
            then (let (rc, key, w') =
                  read_otaa a b started (zeros (field_size f)) (session_op a b started f) w in
                (rc, key, (s, w')))
            else (pos 0, v, (s, w)))
    unfolding get_field get_session check_thread
    get_field_of_store f v s w e held =
        let same : (field_size f == field_size f) ≡ true =
          (==_iff (field_size f) (field_size f)).1 refl in
        elim (Bool-cases (is_session_key f)) [
          | inl key ↦ elim (Bool-cases (is_abp s.store.njm)) [
            | inl abp ↦ rw (key, abp, same, ensure_loaded_again s e, abp, held) refl
            | inr otaa ↦ rw (key, otaa, same, ensure_loaded_again s e, otaa) refl
          ]
          | inr plain ↦ rw (plain, get_loaded f v s e held) refl
        ]

    -- When a credential is set, then no join was active, the length was the credential's, the
    -- settings have accepted the value under the credential's key, and its getter gives the value
    -- back and changes nothing; but the getters of the two session keys give, under OTAA, what the
    -- session has.
    pub set_bytes-get_field :
        (f : Field) (v : List ℕ) (s : Credentials a) (w : b.W)
        → (set_bytes a false f (some v) s).0 ≡ pos 0
        → let t = (set_bytes a false f (some v) s).1 in
          (s.store.join_active ≡ false)
          × (length v ≡ field_size f)
          × (a.setting_write (field_key f) v (ensure_loaded a s).1.settings ≡ (pos 0, t.settings))
          × (get_field a b started false f (some (field_size f)) (t, w) ≡ (
              if is_session_key f && not (is_abp t.store.njm)
              then (let (rc, key, w') =
                    read_otaa a b started (zeros (field_size f)) (session_op a b started f) w in
                  (rc, key, (t, w')))
              else (pos 0, v, (t, w))))
    set_bytes-get_field f v s w ok =
        let (free, size, written, st, loaded) = set_bytes-guarded_write f v s ok in
        let (rc, t) = set_bytes a false f (some v) s in
        let store = (ensure_loaded a s).1.store in
        (
          free,
          size,
          written,
          get_field_of_store f v t w (ap (λ r. r.loaded) st ∙ loaded-set_field f v store ∙ loaded)
              (ap (field f) st ∙ field-set_field f v store),
        )
