-- ===== src/Settings/Durability.antt =====
-- A setting that was written is there after a restart, when the cache is empty.
use rzi.Prelude.{
  ℕ, ◌≡◌, inl, inr, refl, Bool, true, false, ◌&&◌, List, [], ◌∷◌, ℤ, pos, length, eq_bytes,
  if◌then◌else◌, is_zero, is_zero_iff, Bool-cases, sym, ◌==◌, arith, Option, none, some,
  eq_bytes_iff,
}
use rzi.Err.{Err, fail}
use rzi.Settings.{
  StorageApi, Schema, Setting, Settings, replace, forget, find_setting, save_value, load_value,
  load_plain, load_policy, valid_value, is_policy, lorawan_namespace, join_policy_version,
  read_setting, read_found, setting_read, write_setting, write_found, setting_write,
}
use rzi.Settings.Coherence.{IsStorage, IsStored, stored, IsCoherent, save_value-IsStored}
use rzi.Settings.Cache.{IsValid, find_setting_sound, cached-IsStored}

-- A setting as it is before it is loaded.
abbrev blank : Setting → Setting
blank e = record { schema = e.schema; loaded = false; present = false; value = [] }

module _ (a : StorageApi) (law : IsStorage a) where
  read_stored :
      (x : Schema) (v : List ℕ) (s : a.S)
      → is_policy x.kind ≡ false
      → IsStored a law x v s
      → let (rc, w, _) = a.read lorawan_namespace x.key x.size s in (rc ≡ pos 0) × (w ≡ v)
  unfolding stored
  read_stored x v s plain (up, st) = ground (arith, st, plain)

  record_stored :
      (x : Schema) (v : List ℕ) (s : a.S)
      → is_policy x.kind ≡ true
      → IsStored a law x v s
      → let (rc, version, w, _) = a.read_record lorawan_namespace x.key x.size s in
        (rc ≡ pos 0) × (version ≡ join_policy_version) × (w ≡ v)
  unfolding stored
  record_stored x v s policy (up, st) = ground (arith, st, policy)

  Gives : List ℕ → ℤ × List ℕ × Bool × a.S → Type 0
  Gives v (rc, w, found, _) = (rc ≡ pos 0) × (w ≡ v) × (found ≡ true)

  load_plain-stored :
      (x : Schema) (v : List ℕ) (s : a.S)
      → is_policy x.kind ≡ false
      → IsStored a law x v s
      → valid_value x.kind v ≡ true
      → Gives v (load_plain a true x s)
  unfolding load_plain Gives
  load_plain-stored x v s plain st valid =
      let (ok, same) = read_stored x v s plain st in rw (ok, same, valid) (refl, refl, refl)

  load_policy-stored :
      (x : Schema) (v : List ℕ) (s : a.S)
      → is_policy x.kind ≡ true
      → IsStored a law x v s
      → valid_value x.kind v ≡ true
      → length v ≡ x.size
      → Gives v (load_policy a true x s)
  unfolding load_policy Gives
  load_policy-stored x v s policy st valid size =
      let (ok, current, same) = record_stored x v s policy st in
      rw (ok, current, same, valid) (ground (arith, size), refl, refl)

  either-Gives :
      (v : List ℕ) (b : Bool) (p q : ℤ × List ℕ × Bool × a.S)
      → (b ≡ true → Gives v p)
      → (b ≡ false → Gives v q)
      → Gives v (if b then p else q)
  either-Gives v true p q f g = f refl
  either-Gives v false p q f g = g refl

  -- What is stored and valid is what loading gives.
  load_value-stored :
      (x : Schema) (v : List ℕ) (s : a.S)
      → IsStored a law x v s
      → valid_value x.kind v ≡ true
      → length v ≡ x.size
      → Gives v (load_value a true x s)
  unfolding load_value
  load_value-stored x v s st valid size =
      either-Gives v (is_policy x.kind) (load_policy a true x s) (load_plain a true x s)
        (λ e. load_policy-stored x v s e st valid size) (λ e. load_plain-stored x v s e st valid)

  find_setting-blank :
      (key : List ℕ) (es : List Setting) (e e' : Setting)
      → find_setting key es ≡ some e
      → e'.schema ≡ e.schema
      → find_setting key (forget a true (replace e' es)) ≡ some (blank e)
  find_setting-blank key [] e e' found same = ground (arith, found)
  find_setting-blank key (x ∷ xs) e e' found same = elim (Bool-cases (eq_bytes x.schema.key key)) [
    | inl hit ↦
        let e≡x : e ≡ x = ground (arith, found, hit) in
        let e-hit : eq_bytes e.schema.key key ≡ true = rw e≡x hit in
        let same-hit : eq_bytes x.schema.key e'.schema.key ≡ true =
          rw (same, e≡x) ((eq_bytes_iff x.schema.key x.schema.key).1 refl) in
        rw (same-hit, same, e-hit) refl
    | inr miss ↦ elim (Bool-cases (eq_bytes x.schema.key e'.schema.key)) [
      | inl hit ↦
          let k : x.schema.key ≡ e'.schema.key = (eq_bytes_iff x.schema.key e'.schema.key).0 hit in
          let e'-miss : eq_bytes e'.schema.key key ≡ false = rw (sym k) miss in
          rw (hit, e'-miss) (find_setting-blank key xs e e' (ground (arith, found, miss)) same)
      | inr other ↦
          rw (other, miss) (find_setting-blank key xs e e' (ground (arith, found, miss)) same)
    ]
  ]

  -- What a write that succeeds leaves.
  Written : Setting → List ℕ → Settings a true → ℤ × Settings a true → Type 0
  Written e v c (rc, c') =
      (rc ≡ pos 0
        → ((c'.settings
              ≡ replace (record e { value = v; present = true; loaded = true }) c.settings)
            × IsStored a law e.schema v c'.storage))

  either-Written :
      (e : Setting) (v : List ℕ) (c : Settings a true) (b : Bool) (p q : ℤ × Settings a true)
      → (b ≡ true → Written e v c p)
      → (b ≡ false → Written e v c q)
      → Written e v c (if b then p else q)
  either-Written e v c true p q f g = f refl
  either-Written e v c false p q f g = g refl

  write_setting-Written :
      (e : Setting) (v : List ℕ) (c : Settings a true)
      → length v ≡ e.schema.size
      → IsCoherent a law e c.storage
      → Written e v c (write_setting a true e v c)
  unfolding write_setting Written
  write_setting-Written e v c size cached =
      let (rc, s) = save_value a true e.schema v c.storage in
      let e' : Setting = record e { value = v; present = true; loaded = true } in
      let c' : Settings a true = record { settings = replace e' c.settings; storage = s } in
      either-Written e v c (e.loaded && (e.present && eq_bytes e.value v))
        (pos 0, record c { settings = replace e' c.settings })
        (if is_zero rc then (pos 0, c') else (rc, record c { storage = s }))
        (λ hit ok. (refl, cached-IsStored a law e v c.storage hit cached))
        (λ _.
          either-Written e v c (is_zero rc) (pos 0, c') (rc, record c { storage = s })
            (λ z ok.
              (refl, save_value-IsStored a law e.schema v c.storage size ((is_zero_iff rc).0 z)))
            (λ z ok. ground (arith, z, ok)))

  loaded-first :
      (v : List ℕ) (r : ℤ × List ℕ × Bool × a.S) (p : Settings a true)
      (q : ℤ × List ℕ × Bool × Settings a true)
      → Gives v r
      → let (rc, w, found, _) = if is_zero r.0 then (pos 0, r.1, r.2, p) else q in
        (rc ≡ pos 0) × (w ≡ v) × (found ≡ true)
  unfolding Gives
  loaded-first v r p q (ok, same, found) = rw (ok, same, found) (refl, refl, refl)

  read_blank :
      (e : Setting) (v : List ℕ) (c : Settings a true)
      → IsStored a law e.schema v c.storage
      → valid_value e.schema.kind v ≡ true
      → length v ≡ e.schema.size
      → let (rc, w, found, _) = read_setting a true (blank e) c in
        (rc ≡ pos 0) × (w ≡ v) × (found ≡ true)
  unfolding read_setting
  read_blank e v c st valid size =
      loaded-first v (load_value a true e.schema c.storage) _ _
        (load_value-stored e.schema v c.storage st valid size)

  found_blank :
      (e : Setting) (v : List ℕ) (c : Settings a true)
      → IsStored a law e.schema v c.storage
      → valid_value e.schema.kind v ≡ true
      → length v ≡ e.schema.size
      → let (rc, w, found, _) = read_found a true (length v) c (some (blank e)) in
        (rc ≡ pos 0) × (w ≡ v) × (found ≡ true)
  unfolding read_found
  found_blank e v c st valid size =
      let fits : (length v == e.schema.size) ≡ true = ground (arith, size) in
      rw fits (read_blank e v c st valid size)

  -- Reading a key again with an empty cache, after an operation that gave a code and this state.
  Survives : List ℕ → List ℕ → ℤ × Settings a true → Type 0
  Survives key v (rc, c) =
      (rc ≡ pos 0
        → (let (code, w, found, _) =
              setting_read a true key (length v)
                (record c { settings = forget a true c.settings }) in
            (code ≡ pos 0) × (w ≡ v) × (found ≡ true)))

  Written-Survives :
      (key v : List ℕ) (e : Setting) (c : Settings a true) (p : ℤ × Settings a true)
      → find_setting key c.settings ≡ some e
      → valid_value e.schema.kind v ≡ true
      → length v ≡ e.schema.size
      → Written e v c p
      → Survives key v p
  unfolding Survives Written setting_read
  Written-Survives key v e c (rc, c') found valid size written ok =
      let (es, st) = written ok in
      let e' : Setting = record e { value = v; present = true; loaded = true } in
      let again = find_setting-blank key c.settings e e' found refl in
      rw (es, again)
        (found_blank e v
          (record { settings = forget a true (replace e' c.settings); storage = c'.storage }) st
          valid size)

  either-Survives :
      (key v : List ℕ) (b : Bool) (p q : ℤ × Settings a true)
      → (b ≡ true → Survives key v p)
      → (b ≡ false → Survives key v q)
      → Survives key v (if b then p else q)
  either-Survives key v true p q f g = f refl
  either-Survives key v false p q f g = g refl

  invalid-Survives : (key v : List ℕ) (c : Settings a true) → Survives key v (fail Err.invalid, c)
  unfolding Survives
  invalid-Survives key v c ok = ground (arith, ok)

  write_found-Survives :
      (key v : List ℕ) (c : Settings a true) (o : Option Setting)
      → find_setting key c.settings ≡ o
      → IsValid a law c
      → Survives key v (write_found a true v c o)
  unfolding write_found
  write_found-Survives key v c none found ok = invalid-Survives key v c
  write_found-Survives key v c (some e) found (all, cs) =
      let (_, _, cached) = find_setting_sound a law key c.settings e c.storage found all cs in
      either-Survives key v ((length v == e.schema.size) && valid_value e.schema.kind v)
        (write_setting a true e v c) (fail Err.invalid, c)
        (λ fits.
          Written-Survives key v e c (write_setting a true e v c) found (ground (arith, fits))
            (ground (arith, fits)) (write_setting-Written e v c (ground (arith, fits)) cached))
        (λ _. invalid-Survives key v c)

  -- When the cache is coherent with the storage and a write succeeds, then with the cache emptied, as
  -- it is after a restart, a read of the same key and size succeeds and finds the value that was
  -- written, whether the write stored it or skipped it as cached already.
  pub setting_write-setting_read :
      (key v : List ℕ) (c : Settings a true)
      → IsValid a law c
      → (setting_write a true key v c).0 ≡ pos 0
      → let c' = (setting_write a true key v c).1 in
        let (rc, w, found, _) =
          setting_read a true key (length v) (record c' { settings = forget a true c'.settings }) in
        (rc ≡ pos 0) × (w ≡ v) × (found ≡ true)
  unfolding setting_write Survives
  setting_write-setting_read key v c ok done =
      write_found-Survives key v c (find_setting key c.settings) refl ok done
