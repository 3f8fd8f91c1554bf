-- ===== src/Settings/Coherence.antt =====
-- What the settings rely on in the storage service, and the cache as a faithful copy of what is
-- stored there.
use rzi.Prelude.{
  ℕ, ◌≡◌, ◌⊎◌, inl, inr, refl, Bool, true, false, ◌&&◌, ◌||◌, List, [], ◌∷◌, ℤ, pos, length,
  eq_bytes, if◌then◌else◌, is_zero, Bool-cases, sym, ◌∙◌, arith,
}
use rzi.Settings.{
  StorageApi, is_policy, Schema, Setting, lorawan_namespace, join_policy_version, save_value,
}

-- What the settings rely on. A storage that is ready is not changed by reads, and one that is not may
-- become ready; what a read gave can be read again. A write that succeeds
-- stores the value under its key; whatever else is stored stays, and everything does when it fails.
pub record IsStorage (a : StorageApi) : Type 0 where
  pub is_ready : a.S → Bool
  pub read_ready :
      (namespace key : List ℕ) (n : ℕ) (s : a.S)
      → (a.read namespace key n s).0 ≡ pos 0
      → let (rc, v, t) = a.read namespace key n s in
        (is_ready t ≡ true)
        × ((a.read namespace key n t).0 ≡ rc)
        × ((a.read namespace key n t).1 ≡ v)
  pub read_pure :
      (namespace key : List ℕ) (n : ℕ) (s : a.S)
      → is_ready s ≡ true
      → (a.read namespace key n s).2 ≡ s
  pub read_length :
      (namespace key : List ℕ) (n : ℕ) (s : a.S)
      → (a.read namespace key n s).0 ≡ pos 0
      → length (a.read namespace key n s).1 ≡ n
  pub record_ready :
      (key : List ℕ) (n : ℕ) (s : a.S)
      → (a.read_record lorawan_namespace key n s).0 ≡ pos 0
      → let (rc, version, v, t) = a.read_record lorawan_namespace key n s in
        (is_ready t ≡ true)
        × ((a.read_record lorawan_namespace key n t).0 ≡ rc)
        × ((a.read_record lorawan_namespace key n t).1 ≡ version)
        × ((a.read_record lorawan_namespace key n t).2 ≡ v)
  pub record_pure :
      (key : List ℕ) (n : ℕ) (s : a.S)
      → is_ready s ≡ true
      → (a.read_record lorawan_namespace key n s).3 ≡ s
  pub write_ready :
      (key v : List ℕ) (s : a.S)
      → (is_ready s || is_zero (a.write lorawan_namespace key v s).0) ≡ true
      → is_ready (a.write lorawan_namespace key v s).1 ≡ true
  pub write_stored :
      (key v : List ℕ) (s : a.S)
      → (a.write lorawan_namespace key v s).0 ≡ pos 0
      → let (rc, w, _) =
          a.read lorawan_namespace key (length v) (a.write lorawan_namespace key v s).1 in
        (rc ≡ pos 0) × (w ≡ v)
  pub write_apart :
      (key other v : List ℕ) (n : ℕ) (s : a.S)
      → is_ready s ≡ true
      → (is_zero (a.write lorawan_namespace key v s).0 && eq_bytes other key) ≡ false
      → let t = (a.write lorawan_namespace key v s).1 in
        ((a.read lorawan_namespace other n t).0 ≡ (a.read lorawan_namespace other n s).0)
        × ((a.read lorawan_namespace other n t).1 ≡ (a.read lorawan_namespace other n s).1)
        × ((a.read_record lorawan_namespace other n t).0
            ≡ (a.read_record lorawan_namespace other n s).0)
        × ((a.read_record lorawan_namespace other n t).1
            ≡ (a.read_record lorawan_namespace other n s).1)
        × ((a.read_record lorawan_namespace other n t).2
            ≡ (a.read_record lorawan_namespace other n s).2)
  pub record_written_ready :
      (key v : List ℕ) (s : a.S)
      → (is_ready s || is_zero (a.write_record lorawan_namespace key join_policy_version v s).0)
        ≡ true
      → is_ready (a.write_record lorawan_namespace key join_policy_version v s).1 ≡ true
  pub record_stored :
      (key v : List ℕ) (s : a.S)
      → (a.write_record lorawan_namespace key join_policy_version v s).0 ≡ pos 0
      → let (rc, version, w, _) =
          a.read_record lorawan_namespace key
            (length v)
            (a.write_record lorawan_namespace key join_policy_version v s).1 in
        (rc ≡ pos 0) × (version ≡ join_policy_version) × (w ≡ v)
  pub record_apart :
      (key other v : List ℕ) (n : ℕ) (s : a.S)
      → is_ready s ≡ true
      → (is_zero (a.write_record lorawan_namespace key join_policy_version v s).0
          && eq_bytes other key)
        ≡ false
      → let t = (a.write_record lorawan_namespace key join_policy_version v s).1 in
        ((a.read lorawan_namespace other n t).0 ≡ (a.read lorawan_namespace other n s).0)
        × ((a.read lorawan_namespace other n t).1 ≡ (a.read lorawan_namespace other n s).1)
        × ((a.read_record lorawan_namespace other n t).0
            ≡ (a.read_record lorawan_namespace other n s).0)
        × ((a.read_record lorawan_namespace other n t).1
            ≡ (a.read_record lorawan_namespace other n s).1)
        × ((a.read_record lorawan_namespace other n t).2
            ≡ (a.read_record lorawan_namespace other n s).2)

module _ (a : StorageApi) (law : IsStorage a) where
  -- What a read of a setting's own place gives: the code, the version, and the value.
  unfoldable pub stored : Bool → List ℕ → ℕ → a.S → ℤ × ℕ × List ℕ
  stored policy key n s =
      let (rc, version, v, _) = a.read_record lorawan_namespace key n s in
      let (rc', v', _) = a.read lorawan_namespace key n s in
      if policy then (rc, version, v) else (rc', join_policy_version, v')

  abbrev pub IsStored : Schema → List ℕ → a.S → Type 0
  IsStored x v s =
      (law.is_ready s ≡ true)
      × (stored (is_policy x.kind) x.key x.size s ≡ (pos 0, join_policy_version, v))

  -- A cached value that counts as present is the stored one.
  abbrev pub IsCoherent : Setting → a.S → Type 0
  IsCoherent e s = ((e.loaded && e.present) ≡ false) ⊎ IsStored e.schema e.value s

  abbrev pub AllCoherent : List Setting → a.S → Type 0
  AllCoherent [] s = Unit
  AllCoherent (e ∷ es) s = IsCoherent e s × AllCoherent es s

  -- What is stored stays, but for the key `k` if `b`.
  pub record Keeps (b : Bool) (k : List ℕ) (s t : a.S) : Type 0 where
    pub ready : (law.is_ready s ≡ false) ⊎ (law.is_ready t ≡ true)
    pub others :
        (policy : Bool) (key : List ℕ) (n : ℕ)
        → law.is_ready s ≡ true
        → (b && eq_bytes key k) ≡ false
        → stored policy key n t ≡ stored policy key n s

  pub same-Keeps :
      (b : Bool) (k : List ℕ) (s t : a.S) → (law.is_ready s ≡ true → t ≡ s) → Keeps b k s t
  same-Keeps b k s t e = record {
    ready = elim (Bool-cases (law.is_ready s)) [
      | inl up ↦ inr (rw (e up) up)
      | inr down ↦ inl down
    ];
    others = λ policy key n up other. rw (e up) refl;
  }

  pub trans-Keeps :
      (c : Bool) (k : List ℕ) (s t u : a.S) → Keeps false k s t → Keeps c k t u → Keeps c k s u
  trans-Keeps c k s t u p q = record {
    ready = ground (arith, p.ready, q.ready);
    others = λ policy key n up other.
        q.others policy key n (ground (arith, p.ready, up)) other ∙ p.others policy key n up refl;
  }

  pub read-Keeps :
      (namespace key k : List ℕ) (n : ℕ) (s : a.S) → Keeps false k s (a.read namespace key n s).2
  read-Keeps namespace key k n s = same-Keeps false k s _ (law.read_pure namespace key n s)

  pub record-Keeps :
      (key k : List ℕ) (n : ℕ) (s : a.S)
      → Keeps false k s (a.read_record lorawan_namespace key n s).3
  record-Keeps key k n s = same-Keeps false k s _ (law.record_pure key n s)

  write-Keeps :
      (key v : List ℕ) (s : a.S)
      → let (rc, t) = a.write lorawan_namespace key v s in Keeps (is_zero rc) key s t
  unfolding stored
  write-Keeps key v s = record {
    ready = elim (Bool-cases (law.is_ready s)) [
      | inl up ↦ inr (law.write_ready key v s (ground (arith, up)))
      | inr down ↦ inl down
    ];
    others = λ policy other n up e. ground (arith, law.write_apart key other v n s up e);
  }

  record_written-Keeps :
      (key v : List ℕ) (s : a.S)
      → let (rc, t) = a.write_record lorawan_namespace key join_policy_version v s in
        Keeps (is_zero rc) key s t
  unfolding stored
  record_written-Keeps key v s = record {
    ready = elim (Bool-cases (law.is_ready s)) [
      | inl up ↦ inr (law.record_written_ready key v s (ground (arith, up)))
      | inr down ↦ inl down
    ];
    others = λ policy other n up e. ground (arith, law.record_apart key other v n s up e);
  }

  pub save_value-Keeps :
      (x : Schema) (v : List ℕ) (s : a.S)
      → let (rc, t) = save_value a true x v s in Keeps (is_zero rc) x.key s t
  unfolding save_value
  save_value-Keeps x v s = elim (Bool-cases (is_policy x.kind)) [
    | inl e ↦ rw e (record_written-Keeps x.key v s)
    | inr e ↦ rw e (write-Keeps x.key v s)
  ]

  policy_written :
      (key v : List ℕ) (s : a.S)
      → (a.write_record lorawan_namespace key join_policy_version v s).0 ≡ pos 0
      → let t = (a.write_record lorawan_namespace key join_policy_version v s).1 in
        (law.is_ready t ≡ true) × (stored true key (length v) t ≡ (pos 0, join_policy_version, v))
  unfolding stored
  policy_written key v s ok = (
    law.record_written_ready key v s (ground (arith, ok)),
    ground (arith, law.record_stored key v s ok),
  )

  plain_written :
      (key v : List ℕ) (s : a.S)
      → (a.write lorawan_namespace key v s).0 ≡ pos 0
      → let t = (a.write lorawan_namespace key v s).1 in
        (law.is_ready t ≡ true) × (stored false key (length v) t ≡ (pos 0, join_policy_version, v))
  unfolding stored
  plain_written key v s ok =
      (law.write_ready key v s (ground (arith, ok)), ground (arith, law.write_stored key v s ok))

  -- A value of the setting's size that is saved is the stored one.
  pub save_value-IsStored :
      (x : Schema) (v : List ℕ) (s : a.S)
      → length v ≡ x.size
      → (save_value a true x v s).0 ≡ pos 0
      → IsStored x v (save_value a true x v s).1
  unfolding save_value
  save_value-IsStored x v s size = elim (Bool-cases (is_policy x.kind)) [
    | inl e ↦ λ ok. rw (e, sym size) (policy_written x.key v s (ground (arith, ok, e)))
    | inr e ↦ λ ok. rw (e, sym size) (plain_written x.key v s (ground (arith, ok, e)))
  ]
