-- ===== src/Settings/Loading.antt =====
-- What loading a setting for the first time does to the storage, older keys and migration included.
use rzi.Prelude.{
  ℕ, zero, length-append, suc, ◌++◌, ◌-◌, codes, ◌≡◌, ◌⊎◌, inl, inr, refl, Bool, true, false, not,
  ◌&&◌, ◌||◌, List, [], ◌∷◌, ℤ, pos, length, if◌then◌else◌, is_zero, is_zero_iff, Bool-cases, ◌==◌,
  ◌==ℤ◌, leb, arith,
}
use rzi.Err.{Err, fail}
use rzi.Settings.{
  StorageApi, is_policy, is_region, Schema, lorawan_namespace, join_policy_version, rzi_namespace,
  default_value, zeros, autojoin, join_interval, join_attempts, read_places, read_legacy,
  migrate_region, read_all_legacy, save_found, load_policy, load_older, load_plain, load_value,
  save_value,
}
use rzi.Settings.Coherence.{
  IsStorage, IsStored, Keeps, stored, same-Keeps, trans-Keeps, read-Keeps, record-Keeps,
  save_value-Keeps, save_value-IsStored,
}

length-zeros : (n : ℕ) → length (zeros n) ≡ n
length-zeros zero = refl
length-zeros (suc n) = ground (arith, length-zeros n)

-- The sizes that the schema's kinds fix.
unfoldable pub is_sized : Schema → Bool
is_sized x =
    leb 1 x.size
    && ((not (is_policy x.kind) || (x.size == 3)) && (not (is_region x.kind) || (x.size == 1)))

length-default_value : (x : Schema) → is_sized x ≡ true → length (default_value x) ≡ x.size
unfolding is_sized default_value
length-default_value x e = ground (arith, length-zeros (x.size - 2), length-zeros (x.size - 1))

policy_size : (x : Schema) → is_sized x ≡ true → is_policy x.kind ≡ true → x.size ≡ 3
unfolding is_sized
policy_size x e policy = ground (arith, e, policy)

module _ (a : StorageApi) (law : IsStorage a) where
  read_places-Keeps :
      (x : Schema) (k : List ℕ) (s : a.S) → Keeps a law false k s (read_places a true x s).2
  unfolding read_places
  read_places-Keeps x k s =
      elim (Bool-cases ((a.read lorawan_namespace x.key x.size s).0 ==ℤ fail Err.not_found)) [
        | inl e ↦ rw e (
            trans-Keeps a law false k s _ _ (read-Keeps a law lorawan_namespace x.key k x.size s)
              (read-Keeps a law rzi_namespace x.key k x.size _))
        | inr e ↦ rw e (read-Keeps a law lorawan_namespace x.key k x.size s)
      ]

  length-read_places :
      (x : Schema) (s : a.S)
      → let (rc, v, _) = read_places a true x s in (is_zero rc ≡ false) ⊎ (length v ≡ x.size)
  unfolding read_places
  length-read_places x s = ground (
    arith,
    law.read_length lorawan_namespace x.key x.size s,
    law.read_length rzi_namespace x.key x.size (a.read lorawan_namespace x.key x.size s).2,
  )

  length-read_legacy :
      (x : Schema) (s : a.S)
      → is_sized x ≡ true
      → let (rc, v, _, _) = read_legacy a true x s in (is_zero rc ≡ false) ⊎ (length v ≡ x.size)
  unfolding read_legacy
  length-read_legacy x s e = ground (arith, length-default_value x e, length-read_places x s)

  read_legacy-Keeps :
      (x : Schema) (k : List ℕ) (s : a.S) → Keeps a law false k s (read_legacy a true x s).3
  unfolding read_legacy
  read_legacy-Keeps x k s = read_places-Keeps x k s

  migrate_region-Keeps :
      (value k : List ℕ) (s : a.S) → Keeps a law false k s (migrate_region a true value s).3
  unfolding migrate_region
  migrate_region-Keeps value k s = read-Keeps a law rzi_namespace (codes "band") k 1 s

  length-migrate_region :
      (value : List ℕ) (s : a.S) → length value ≡ 1 → length (migrate_region a true value s).1 ≡ 1
  unfolding migrate_region
  length-migrate_region value s e = ground (arith, e)

  load_older-Keeps :
      (x : Schema) (k : List ℕ) (s : a.S) → Keeps a law false k s (load_older a true x s).3
  unfolding load_older
  load_older-Keeps x k s =
      let (rc, v, found, t) = read_legacy a true x s in
      elim (Bool-cases (is_zero rc && (not found && is_region x.kind))) [
        | inl e ↦
            rw e (
              trans-Keeps a law false k s _ _ (read_legacy-Keeps x k s)
                (migrate_region-Keeps v k t))
        | inr e ↦ rw e (read_legacy-Keeps x k s)
      ]

  length-load_older :
      (x : Schema) (s : a.S)
      → is_sized x ≡ true
      → let (rc, v, _, _) = load_older a true x s in (is_zero rc ≡ false) ⊎ (length v ≡ x.size)
  unfolding load_older is_sized
  length-load_older x s e =
      let (rc, v, found, t) = read_legacy a true x s in
      ground (arith, e, length-read_legacy x s e, length-migrate_region v t)

  read_all_legacy-Keeps :
      (xs : List Schema) (k : List ℕ) (s : a.S)
      → Keeps a law false k s (read_all_legacy a true xs s).3
  unfolding read_all_legacy
  read_all_legacy-Keeps [] k s = same-Keeps a law false k s s (λ _. refl)
  read_all_legacy-Keeps (x ∷ xs) k s =
      let (rc, v, found, t) = read_legacy a true x s in
      elim (Bool-cases (is_zero rc)) [
        | inl e ↦ rw e (
            trans-Keeps a law false k s _ _ (read_legacy-Keeps x k s)
              (read_all_legacy-Keeps xs k t))
        | inr e ↦ rw e (read_legacy-Keeps x k s)
      ]

  abbrev older_policy : List Schema
  older_policy = autojoin ∷ join_interval ∷ join_attempts ∷ []

  length-read_all_legacy :
      (s : a.S)
      → let (rc, v, _, _) = read_all_legacy a true older_policy s in
        (is_zero rc ≡ false) ⊎ (length v ≡ 3)
  unfolding read_all_legacy is_sized
  length-read_all_legacy s =
      let (rc, v, _, t) = read_legacy a true autojoin s in
      let (rc', v', _, t') = read_legacy a true join_interval t in
      let (rc'', v'', _, _) = read_legacy a true join_attempts t' in
      ground (
        arith,
        length-read_legacy autojoin s refl,
        length-read_legacy join_interval t refl,
        length-read_legacy join_attempts t' refl,
        length-append v (v' ++ (v'' ++ [])),
        length-append v' (v'' ++ []),
        length-append v'' [],
      )

  -- What loading leaves: the rest of the storage, and a value that was found in its place.
  pub Loads : Schema → a.S → ℤ × List ℕ × Bool × a.S → Type 0
  Loads x s (rc, v, found, t) =
      Keeps a law (is_zero rc) x.key s t × (((is_zero rc && found) ≡ false) ⊎ IsStored a law x v t)

  widen-Keeps : (b : Bool) (k : List ℕ) (s t : a.S) → Keeps a law false k s t → Keeps a law b k s t
  widen-Keeps b k s t p = record {
    ready = p.ready;
    others = λ policy key n up _. p.others policy key n up refl;
  }

  pub saved_or_not :
      (x : Schema) (v : List ℕ) (found : Bool) (s : a.S)
      → length v ≡ x.size
      → let (rc, t) = save_value a true x v s in
        ((is_zero rc && found) ≡ false) ⊎ IsStored a law x v t
  saved_or_not x v found s size = elim (Bool-cases (is_zero (save_value a true x v s).0)) [
    | inl e ↦
        inr (save_value-IsStored a law x v s size ((is_zero_iff (save_value a true x v s).0).0 e))
    | inr e ↦ inl (rw e refl)
  ]

  save_found-Loads :
      (x : Schema) (s : a.S) (r : ℤ × List ℕ × Bool × a.S)
      → Keeps a law false x.key s r.3
      → (is_zero r.0 ≡ false) ⊎ (length r.1 ≡ x.size)
      → Loads x s (save_found a true x r)
  unfolding Loads save_found
  save_found-Loads x s (rc, v, found, t) k size = elim (Bool-cases (is_zero rc && found)) [
    | inl e ↦ rw e (
      trans-Keeps a law _ x.key s t _ k (save_value-Keeps a law x v t),
      saved_or_not x v found t (ground (arith, size, e)),
    )
    | inr e ↦ rw e (widen-Keeps (is_zero rc) x.key s t k, inl e)
  ]

  in_place-Loads :
      (x : Schema) (s t : a.S) (code : ℤ) (v : List ℕ)
      → Keeps a law false x.key s t
      → IsStored a law x v t
      → Loads x s (code, v, true, t)
  unfolding Loads
  in_place-Loads x s t code v k e = (widen-Keeps (is_zero code) x.key s t k, inr e)

  failed-Loads :
      (x : Schema) (s t : a.S) (code : ℤ) (v : List ℕ) (found : Bool)
      → is_zero code ≡ false
      → Keeps a law false x.key s t
      → Loads x s (code, v, found, t)
  unfolding Loads
  failed-Loads x s t code v found e k = (widen-Keeps (is_zero code) x.key s t k, inl (rw e refl))

  plain_read-IsStored :
      (x : Schema) (s : a.S)
      → is_policy x.kind ≡ false
      → (a.read lorawan_namespace x.key x.size s).0 ≡ pos 0
      → let (_, v, t) = a.read lorawan_namespace x.key x.size s in IsStored a law x v t
  unfolding stored
  plain_read-IsStored x s plain ok =
      let r = law.read_ready lorawan_namespace x.key x.size s ok in
      (r.0, ground (arith, r.1, plain, ok))

  load_plain-Loads :
      (x : Schema) (s : a.S)
      → is_sized x ≡ true
      → is_policy x.kind ≡ false
      → Loads x s (load_plain a true x s)
  unfolding load_plain
  load_plain-Loads x s sized plain =
      let (rc, v, t) = a.read lorawan_namespace x.key x.size s in
      let k = read-Keeps a law lorawan_namespace x.key x.key x.size s in
      elim (Bool-cases (is_zero rc)) [
        | inl e ↦
            rw e (in_place-Loads x s t _ v k (plain_read-IsStored x s plain ((is_zero_iff rc).0 e)))
        | inr e ↦ elim (Bool-cases (rc ==ℤ fail Err.not_found)) [
          | inl e' ↦
              rw (e, e')
                (save_found-Loads x s (load_older a true x t)
                  (trans-Keeps a law false x.key s t _ k (load_older-Keeps x x.key t))
                  (length-load_older x t sized))
          | inr e' ↦ rw (e, e') (failed-Loads x s t rc v false e k)
        ]
      ]

  policy_read-IsStored :
      (x : Schema) (s : a.S)
      → is_policy x.kind ≡ true
      → let (rc, version, v, t) = a.read_record lorawan_namespace x.key x.size s in
        rc ≡ pos 0 → version ≡ join_policy_version → IsStored a law x v t
  unfolding stored
  policy_read-IsStored x s policy ok current =
      let r = law.record_ready x.key x.size s ok in (r.0, ground (arith, r.1, policy, ok, current))

  load_policy-Loads :
      (x : Schema) (s : a.S)
      → is_sized x ≡ true
      → is_policy x.kind ≡ true
      → Loads x s (load_policy a true x s)
  unfolding load_policy
  load_policy-Loads x s sized policy =
      let (rc, version, v, t) = a.read_record lorawan_namespace x.key x.size s in
      let k = record-Keeps a law x.key x.key x.size s in
      elim (Bool-cases (is_zero rc)) [
        | inl e ↦ elim (Bool-cases (version == join_policy_version)) [
          | inl current ↦ rw e (
              in_place-Loads x s t _ v k
                (policy_read-IsStored x s policy ((is_zero_iff rc).0 e) (ground (arith, current))))
          | inr old ↦ rw (e, old) (failed-Loads x s t _ v true refl k)
        ]
        | inr e ↦ elim (Bool-cases (rc ==ℤ fail Err.not_found)) [
          | inl e' ↦
              rw (e, e')
                (save_found-Loads x s (read_all_legacy a true older_policy t)
                  (trans-Keeps a law false x.key s t _ k
                    (read_all_legacy-Keeps older_policy x.key t))
                  (ground (arith, length-read_all_legacy t, policy_size x sized policy)))
          | inr e' ↦ rw (e, e') (failed-Loads x s t rc v false e k)
        ]
      ]

  either-Loads :
      (x : Schema) (s : a.S) (b : Bool) (p q : ℤ × List ℕ × Bool × a.S)
      → (b ≡ true → Loads x s p)
      → (b ≡ false → Loads x s q)
      → Loads x s (if b then p else q)
  either-Loads x s true p q f g = f refl
  either-Loads x s false p q f g = g refl

  -- Loading a setting touches no other one, and a value that it finds is the stored one.
  pub load_value-Loads :
      (x : Schema) (s : a.S) → is_sized x ≡ true → Loads x s (load_value a true x s)
  unfolding load_value
  load_value-Loads x s sized =
      either-Loads x s (is_policy x.kind) (load_policy a true x s) (load_plain a true x s)
        (load_policy-Loads x s sized) (load_plain-Loads x s sized)

  -- The parts of it.
  pub load_value-Keeps :
      (x : Schema) (s : a.S)
      → is_sized x ≡ true
      → let (rc, _, _, t) = load_value a true x s in Keeps a law (is_zero rc) x.key s t
  unfolding Loads
  load_value-Keeps x s sized = (load_value-Loads x s sized).0

  pub load_value-IsStored :
      (x : Schema) (s : a.S)
      → is_sized x ≡ true
      → let (rc, v, found, t) = load_value a true x s in
        ((is_zero rc && found) ≡ false) ⊎ IsStored a law x v t
  unfolding Loads
  load_value-IsStored x s sized = (load_value-Loads x s sized).1
