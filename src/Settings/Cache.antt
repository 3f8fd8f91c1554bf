-- ===== src/Settings/Cache.antt =====
-- The cache in front of the storage: what is cached as present is what is stored.
use rzi.Prelude.{
  ℕ, ◌≡◌, ◌⊎◌, inl, inr, refl, Bool, true, false, ◌&&◌, List, [], ◌∷◌, ℤ, pos, length, eq_bytes,
  if◌then◌else◌, is_zero, Bool-cases, sym, ◌∙◌, ◌==◌, arith, Option, none, some, eq_bytes_iff,
}
use rzi.Err.{Err, fail}
use rzi.Settings.{
  StorageApi, Schema, Setting, Settings, replace, find_setting, save_value, load_value, valid_value,
  read_setting, read_found, setting_read, write_setting, write_found, setting_write,
}
use rzi.Settings.Coherence.{
  IsStorage, IsStored, IsCoherent, AllCoherent, Keeps, save_value-Keeps, same-Keeps,
}
use rzi.Settings.Loading.{is_sized, load_value-Keeps, load_value-IsStored, saved_or_not}

-- Every setting of the cache has a size that suits its kind.
unfoldable pub all_sized : List Setting → Bool
all_sized [] = true
all_sized (e ∷ es) = is_sized e.schema && all_sized es

module _ (a : StorageApi) (law : IsStorage a) where
  -- What the cache keeps to.
  abbrev pub IsValid : Settings a true → Type 0
  IsValid c = (all_sized c.settings ≡ true) × AllCoherent a law c.settings c.storage

  keep-IsStored :
      (b : Bool) (k v : List ℕ) (x : Schema) (s t : a.S)
      → Keeps a law b k s t
      → (b && eq_bytes x.key k) ≡ false
      → IsStored a law x v s
      → IsStored a law x v t
  keep-IsStored b k v x s t p other (up, e) =
      (ground (arith, p.ready, up), p.others _ x.key x.size up other ∙ e)

  keep-IsCoherent :
      (b : Bool) (k : List ℕ) (e : Setting) (s t : a.S)
      → Keeps a law b k s t
      → (b && eq_bytes e.schema.key k) ≡ false
      → IsCoherent a law e s
      → IsCoherent a law e t
  keep-IsCoherent b k e s t p other (inl c) = inl c
  keep-IsCoherent b k e s t p other (inr c) = inr (keep-IsStored b k e.value e.schema s t p other c)

  -- An operation on no key leaves the whole cache coherent.
  keep-AllCoherent :
      (k : List ℕ) (es : List Setting) (s t : a.S)
      → Keeps a law false k s t
      → AllCoherent a law es s
      → AllCoherent a law es t
  keep-AllCoherent k [] s t p c = c
  keep-AllCoherent k (e ∷ es) s t p (c, cs) =
      (keep-IsCoherent false k e s t p refl c, keep-AllCoherent k es s t p cs)

  replace_one :
      (e x : Setting) (s t : a.S)
      → Keeps a law true e.schema.key s t
      → IsCoherent a law e t
      → IsCoherent a law x s
      → IsCoherent a law (if eq_bytes x.schema.key e.schema.key then e else x) t
  replace_one e x s t p new old = elim (Bool-cases (eq_bytes x.schema.key e.schema.key)) [
    | inl same ↦ rw same new
    | inr other ↦ rw other (keep-IsCoherent true e.schema.key x s t p other old)
  ]

  replace-AllCoherent :
      (e : Setting) (es : List Setting) (s t : a.S)
      → Keeps a law true e.schema.key s t
      → IsCoherent a law e t
      → AllCoherent a law es s
      → AllCoherent a law (replace e es) t
  replace-AllCoherent e [] s t p new cs = cs
  replace-AllCoherent e (x ∷ xs) s t p new (c, cs) =
      (replace_one e x s t p new c, replace-AllCoherent e xs s t p new cs)

  all_sized-replace :
      (e : Setting) (es : List Setting)
      → is_sized e.schema ≡ true
      → all_sized es ≡ true
      → all_sized (replace e es) ≡ true
  unfolding all_sized
  all_sized-replace e [] one all = refl
  all_sized-replace e (x ∷ xs) one all = ground (arith, all, one, all_sized-replace e xs one)

  -- What is found has the key, and what the whole list has.
  pub find_setting_sound :
      (key : List ℕ) (es : List Setting) (e : Setting) (s : a.S)
      → find_setting key es ≡ some e
      → all_sized es ≡ true
      → AllCoherent a law es s
      → (e.schema.key ≡ key) × (is_sized e.schema ≡ true) × IsCoherent a law e s
  unfolding all_sized
  find_setting_sound key [] e s found all cs = ground (arith, found)
  find_setting_sound key (x ∷ xs) e s found all (c, cs) =
      elim (Bool-cases (eq_bytes x.schema.key key)) [
        | inl same ↦
            let e≡x : e ≡ x = ground (arith, found, same) in
            rw e≡x ((eq_bytes_iff x.schema.key key).0 same, ground (arith, all), c)
        | inr other ↦
            find_setting_sound key xs e s (ground (arith, found, other)) (ground (arith, all)) cs
      ]

  -- A cached value that is replaced by what is stored.
  stored-IsValid :
      (e : Setting) (v : List ℕ) (p : Bool) (c : Settings a true) (t : a.S)
      → is_sized e.schema ≡ true
      → Keeps a law true e.schema.key c.storage t
      → (p ≡ false) ⊎ IsStored a law e.schema v t
      → IsValid c
      → IsValid (record {
        settings = replace (record e { value = v; present = p; loaded = true }) c.settings;
        storage = t;
      })
  stored-IsValid e v p c t size k st (all, cs) =
      let e' : Setting = record e { value = v; present = p; loaded = true } in
      (
        all_sized-replace e' c.settings size all,
        replace-AllCoherent e' c.settings c.storage t k st cs,
      )

  moved-IsValid :
      (k : List ℕ) (c : Settings a true) (t : a.S)
      → Keeps a law false k c.storage t
      → IsValid c
      → IsValid (record c { storage = t })
  moved-IsValid k c t p (all, cs) = (all, keep-AllCoherent k c.settings c.storage t p cs)

  either-IsValid :
      (b : Bool) (p q : ℤ × List ℕ × Bool × Settings a true)
      → (b ≡ true → IsValid p.3)
      → (b ≡ false → IsValid q.3)
      → IsValid (if b then p else q).3
  either-IsValid true p q f g = f refl
  either-IsValid false p q f g = g refl

  kept-IsValid :
      (k : List ℕ) (b : Bool) (c : Settings a true) (t : a.S)
      → b ≡ false
      → Keeps a law b k c.storage t
      → IsValid c
      → IsValid (record c { storage = t })
  kept-IsValid k b c t e p ok = moved-IsValid k c t (rw (sym e) p) ok

  -- The end of `read_setting`, for whatever was loaded.
  loaded-IsValid :
      (e : Setting) (c : Settings a true) (rc : ℤ) (v : List ℕ) (found : Bool) (s : a.S)
      → is_sized e.schema ≡ true
      → Keeps a law (is_zero rc) e.schema.key c.storage s
      → ((is_zero rc && found) ≡ false) ⊎ IsStored a law e.schema v s
      → IsValid c
      → (is_zero rc ≡ true
          → IsValid (record {
            settings = replace (record e { value = v; present = found; loaded = true }) c.settings;
            storage = s;
          }))
        × (is_zero rc ≡ false → IsValid (record c { storage = s }))
  loaded-IsValid e c rc v found s size k st ok = (
    λ z. stored-IsValid e v found c s size (rw (sym z) k) (ground (arith, st, z)) ok,
    λ z. kept-IsValid e.schema.key (is_zero rc) c s z k ok,
  )

  read_setting-IsValid :
      (e : Setting) (c : Settings a true)
      → is_sized e.schema ≡ true
      → IsValid c
      → IsValid (read_setting a true e c).3
  unfolding read_setting
  read_setting-IsValid e c size ok =
      let (rc, v, found, s) = load_value a true e.schema c.storage in
      let c' : Settings a true = record {
        settings = replace (record e { value = v; present = found; loaded = true }) c.settings;
        storage = s;
      } in
      let ends =
        loaded-IsValid e c rc v found s size (load_value-Keeps a law e.schema c.storage size)
          (load_value-IsStored a law e.schema c.storage size) ok in
      either-IsValid e.loaded (pos 0, e.value, e.present, c)
        (if is_zero rc then (pos 0, v, found, c') else (rc, [], false, record c { storage = s }))
        (λ _. ok)
        (λ _.
          either-IsValid (is_zero rc) (pos 0, v, found, c')
            (rc, [], false, record c { storage = s }) ends.0 ends.1)

  pub cached-IsStored :
      (e : Setting) (v : List ℕ) (s : a.S)
      → (e.loaded && (e.present && eq_bytes e.value v)) ≡ true
      → IsCoherent a law e s
      → IsStored a law e.schema v s
  cached-IsStored e v s same (inl c) = ground (arith, same, c)
  cached-IsStored e v s same (inr c) =
      rw (sym ((eq_bytes_iff e.value v).0 (ground (arith, same)))) c

  either_written-IsValid :
      (b : Bool) (p q : ℤ × Settings a true)
      → (b ≡ true → IsValid p.1)
      → (b ≡ false → IsValid q.1)
      → IsValid (if b then p else q).1
  either_written-IsValid true p q f g = f refl
  either_written-IsValid false p q f g = g refl

  write_setting-IsValid :
      (e : Setting) (v : List ℕ) (c : Settings a true)
      → is_sized e.schema ≡ true
      → length v ≡ e.schema.size
      → IsCoherent a law e c.storage
      → IsValid c
      → IsValid (write_setting a true e v c).1
  unfolding write_setting
  write_setting-IsValid e v c size same cached ok =
      let (rc, s) = save_value a true e.schema v c.storage in
      let e' : Setting = record e { value = v; present = true; loaded = true } in
      let c' : Settings a true = record { settings = replace e' c.settings; storage = s } in
      let ends =
        loaded-IsValid e c rc v true s size (save_value-Keeps a law e.schema v c.storage)
          (saved_or_not a law e.schema v true c.storage same) ok in
      either_written-IsValid (e.loaded && (e.present && eq_bytes e.value v))
        (pos 0, record c { settings = replace e' c.settings })
        (if is_zero rc then (pos 0, c') else (rc, record c { storage = s }))
        (λ hit.
          stored-IsValid e v true c c.storage size
            (same-Keeps a law true e.schema.key c.storage c.storage (λ _. refl))
            (inr (cached-IsStored e v c.storage hit cached)) ok)
        (λ _.
          either_written-IsValid (is_zero rc) (pos 0, c') (rc, record c { storage = s }) ends.0
            ends.1)

  read_found-IsValid :
      (key : List ℕ) (size : ℕ) (c : Settings a true) (o : Option Setting)
      → find_setting key c.settings ≡ o
      → IsValid c
      → IsValid (read_found a true size c o).3
  unfolding read_found
  read_found-IsValid key size c none found ok = ok
  read_found-IsValid key size c (some e) found (all, cs) =
      let (_, sized, _) = find_setting_sound key c.settings e c.storage found all cs in
      either-IsValid (size == e.schema.size) (read_setting a true e c)
        (fail Err.invalid, [], false, c) (λ _. read_setting-IsValid e c sized (all, cs))
        (λ _. (all, cs))

  -- A read keeps the cache coherent with the storage, whatever the storage answers: a value that the
  -- cache then holds as present is the stored one, under its own key, and all sizes suit the kinds.
  pub setting_read-IsValid :
      (key : List ℕ) (size : ℕ) (c : Settings a true)
      → IsValid c
      → IsValid (setting_read a true key size c).3
  unfolding setting_read
  setting_read-IsValid key size c = read_found-IsValid key size c (find_setting key c.settings) refl

  write_found-IsValid :
      (key v : List ℕ) (c : Settings a true) (o : Option Setting)
      → find_setting key c.settings ≡ o
      → IsValid c
      → IsValid (write_found a true v c o).1
  unfolding write_found
  write_found-IsValid key v c none found ok = ok
  write_found-IsValid key v c (some e) found (all, cs) =
      let (_, sized, cached) = find_setting_sound key c.settings e c.storage found all cs in
      either_written-IsValid ((length v == e.schema.size) && valid_value e.schema.kind v)
        (write_setting a true e v c) (fail Err.invalid, c)
        (λ fits. write_setting-IsValid e v c sized (ground (arith, fits)) cached (all, cs))
        (λ _. (all, cs))

  -- A write keeps the cache coherent with the storage as well, when it succeeds, when the value is
  -- refused, and when the storage fails.
  pub setting_write-IsValid :
      (key v : List ℕ) (c : Settings a true) → IsValid c → IsValid (setting_write a true key v c).1
  unfolding setting_write
  setting_write-IsValid key v c = write_found-IsValid key v c (find_setting key c.settings) refl
