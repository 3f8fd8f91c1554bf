-- ===== src/Commands/Mode.antt =====
-- src/at/commands/at_network_mode.c: the network mode, its listeners, and its stored copy.
use rzi.Prelude.{
  ℕ, ◌≡◌, ◌⊎◌, inl, inr, refl, ap, sym, Bool, true, false, not, ◌&&◌, ◌||◌, List, [], ◌∷◌, ◌++◌, ℤ,
  pos, negsuc, Option, none, some, length, ltb, leb, ◌==◌, ◌==ℤ◌, if◌then◌else◌, is_zero, arith,
}
use rzi.Err.{Err, fail}

-- RZI_AT_NETWORK_MODE_P2P_LORA, _LORAWAN and _P2P_FSK; LISTENER_MAX.
abbrev pub mode_p2p_lora : ℕ
mode_p2p_lora = 0

abbrev pub mode_lorawan : ℕ
mode_lorawan = 1

abbrev pub mode_p2p_fsk : ℕ
mode_p2p_fsk = 2

abbrev pub listener_max : ℕ
listener_max = 2

-- What the mode uses: the configuration, and the storage of the key "nwm", of which the operations
-- initialize the storage first where the code does. A listener is called by its number.
pub record Platform : Type 1 where
  pub W : Type 0
  pub has_lorawan : Bool
  pub has_lora : Bool
  pub has_nvm : Bool
  pub storage_init : W → ℤ × W
  pub storage_read : W → ℤ × ℕ × W
  pub storage_write : ℕ → W → ℤ × W
  pub storage_delete : W → ℤ × W
  pub listen : ℕ → ℕ → W → ℤ × W

module _ (p : Platform) where
  -- The statics of the file, and the world.
  pub record Mode : Type 0 where
    pub network_mode : ℕ
    pub listeners : List ℕ
    pub world : p.W

  -- The initial mode.
  abbrev pub default_mode : ℕ
  default_mode = if p.has_lorawan then mode_lorawan else mode_p2p_lora

  -- `notify_listeners`: all are called, and the first error is kept.
  unfoldable pub notify_listeners : List ℕ → ℕ → ℤ → p.W → ℤ × p.W
  notify_listeners [] mode rc w = (rc, w)
  notify_listeners (l ∷ ls) mode rc w =
      let (one, w') = p.listen l mode w in
      notify_listeners ls mode (if not (is_zero one) && is_zero rc then one else rc) w'

  -- `load_mode`.
  unfoldable pub load_mode : Mode → ℤ × Mode
  load_mode s =
      let (up, w) = p.storage_init s.world in
      let (rc, stored, w') = p.storage_read w in
      if not p.has_nvm
      then (pos 0, s)
      else if not (is_zero up)
      then (up, record s { world = w })
      else if rc ==ℤ fail Err.not_found
      then (pos 0, record s { world = w' })
      else if not (is_zero rc)
      then (rc, record s { world = w' })
      else if ltb mode_p2p_fsk stored
      then (pos 0, record s { world = w' })
      else (pos 0, record s { network_mode = stored; world = w' })

  -- `save_mode`.
  unfoldable pub save_mode : ℕ → p.W → ℤ × p.W
  save_mode mode w =
      let (up, w') = p.storage_init w in
      if not p.has_nvm then (pos 0, w) else if is_zero up then p.storage_write mode w' else (up, w')

  -- A listener that is NULL is `none`.
  unfoldable pub add_listener : Option ℕ → Mode → ℤ × Mode
  add_listener none s = (fail Err.invalid, s)
  add_listener (some l) s =
      if leb listener_max (length s.listeners)
      then (fail Err.no_resource, s)
      else (pos 0, record s { listeners = s.listeners ++ (l ∷ []) })

  -- The block of `handle_nwm` that switches: the listeners first, then the storage, and back again
  -- when either fails.
  unfoldable pub switch_mode : ℕ → Mode → ℤ × Mode
  switch_mode mode s =
      let (heard, w) = notify_listeners s.listeners mode (pos 0) s.world in
      let (saved, w') = save_mode mode w in
      let rc = if is_zero heard then saved else heard in
      let w'' = if is_zero heard then w' else w in
      let (_, back) = notify_listeners s.listeners s.network_mode (pos 0) w'' in
      if is_zero rc
      then (pos 0, record s { network_mode = mode; world = w'' })
      else (rc, record s { world = back })

  -- `handle_nwm` for a write, up to the response and the reboot; `parsed` is what `parse_long`
  -- makes of the argument.
  unfoldable pub set_mode : Option ℤ → Mode → ℤ × Mode
  set_mode none s = (fail Err.invalid, s)
  set_mode (some (negsuc n)) s = (fail Err.invalid, s)
  set_mode (some (pos mode)) s =
      if ltb mode_p2p_fsk mode
      then (fail Err.invalid, s)
      else if not (mode == mode_lorawan) && not p.has_lora
      then (fail Err.not_supported, s)
      else if mode == s.network_mode
      then (pos 0, s)
      else switch_mode mode s

  -- `rzi_at_network_mode_restore_default`.
  unfoldable pub restore_default : Mode → ℤ × Mode
  restore_default s =
      let (up, w) = p.storage_init s.world in
      let (rc, w') = p.storage_delete w in
      if not p.has_nvm
      then (pos 0, record s { network_mode = default_mode })
      else if not (is_zero up)
      then (up, record s { network_mode = default_mode; world = w })
      else (
        if is_zero rc || (rc ==ℤ fail Err.not_found) then pos 0 else rc,
        record s { network_mode = default_mode; world = w' },
      )

  -- Accepted, with the mode that was asked for, or refused, with the mode as it was.
  Settled : Option ℤ → Mode → ℤ × Mode → Type 0
  Settled parsed s (rc, t) =
      ((rc ≡ pos 0)
        × ((parsed ≡ some (pos t.network_mode)) × (leb t.network_mode mode_p2p_fsk ≡ true)))
      ⊎ ((is_zero rc ≡ false) × (t.network_mode ≡ s.network_mode))

  refused-Settled :
      (parsed : Option ℤ) (rc : ℤ) (s t : Mode)
      → is_zero rc ≡ false
      → t.network_mode ≡ s.network_mode
      → Settled parsed s (rc, t)
  unfolding Settled
  refused-Settled parsed rc s t e same = inr (e, same)

  accepted-Settled :
      (mode : ℕ) (s t : Mode)
      → t.network_mode ≡ mode
      → leb mode mode_p2p_fsk ≡ true
      → Settled (some (pos mode)) s (pos 0, t)
  unfolding Settled
  accepted-Settled mode s t same low = inl (refl, (ap (λ m. some (pos m)) (sym same), rw same low))

  either-Settled :
      (parsed : Option ℤ) (s : Mode) (b : Bool) (x y : ℤ × Mode)
      → (b ≡ true → Settled parsed s x)
      → (b ≡ false → Settled parsed s y)
      → Settled parsed s (if b then x else y)
  either-Settled parsed s true x y f g = f refl
  either-Settled parsed s false x y f g = g refl

  switch_mode-Settled :
      (mode : ℕ) (s : Mode)
      → leb mode mode_p2p_fsk ≡ true
      → Settled (some (pos mode)) s (switch_mode mode s)
  unfolding switch_mode
  switch_mode-Settled mode s low =
      let (heard, w) = notify_listeners s.listeners mode (pos 0) s.world in
      let (saved, w') = save_mode mode w in
      let rc = if is_zero heard then saved else heard in
      let w'' = if is_zero heard then w' else w in
      let (_, back) = notify_listeners s.listeners s.network_mode (pos 0) w'' in
      either-Settled (some (pos mode)) s (is_zero rc)
        (pos 0, record s { network_mode = mode; world = w'' }) (rc, record s { world = back })
        (λ _. accepted-Settled mode s (record s { network_mode = mode; world = w'' }) refl low)
        (λ z. refused-Settled (some (pos mode)) rc s (record s { world = back }) z refl)

  set_mode-Settled : (parsed : Option ℤ) (s : Mode) → Settled parsed s (set_mode parsed s)
  unfolding set_mode
  set_mode-Settled none s = refused-Settled none _ s s refl refl
  set_mode-Settled (some (negsuc n)) s = refused-Settled _ _ s s refl refl
  set_mode-Settled (some (pos mode)) s =
      let asked : Option ℤ = some (pos mode) in
      let go = if mode == s.network_mode then (pos 0, s) else switch_mode mode s in
      let able =
        if not (mode == mode_lorawan) && not p.has_lora then (fail Err.not_supported, s) else go in
      either-Settled asked s (ltb mode_p2p_fsk mode) (fail Err.invalid, s) able
        (λ _. refused-Settled asked _ s s refl refl)
        (λ low.
          either-Settled asked s (not (mode == mode_lorawan) && not p.has_lora)
            (fail Err.not_supported, s) go (λ _. refused-Settled asked _ s s refl refl)
            (λ _.
              either-Settled asked s (mode == s.network_mode) (pos 0, s) (switch_mode mode s)
                (λ same. accepted-Settled mode s s (ground (arith, same)) (ground (arith, low)))
                (λ _. switch_mode-Settled mode s (ground (arith, low)))))

  -- A change of the network mode either succeeds, with the mode that was asked for, one of the three,
  -- or gives an error (the argument, a listener or the storage), with the mode as it was.
  pub set_mode_lem :
      (parsed : Option ℤ) (s : Mode)
      → let (rc, t) = set_mode parsed s in
        ((rc ≡ pos 0)
          × ((parsed ≡ some (pos t.network_mode)) × (leb t.network_mode mode_p2p_fsk ≡ true)))
        ⊎ ((is_zero rc ≡ false) × (t.network_mode ≡ s.network_mode))
  unfolding Settled
  set_mode_lem parsed s = set_mode-Settled parsed s
