-- ===== src/At/Parser/Lines.antt =====
-- How the parser cuts a stream of bytes into lines.
use rzi.Prelude.{
  ℕ, suc, ◌+◌, ◌-◌, ◌≤◌, ◌<◌, ◌≡◌, ◌⊎◌, ◌∙◌, inl, inr, refl, Bool, true, false, List, [], ◌∷◌, ◌++◌,
  pos, length, length-append, length-take, take-append, append_assoc, append-nil, if◌then◌else◌,
  leb, ◌==◌, arith, Bool-cases,
}
use rzi.Err.{Err, fail}
use rzi.At.{Service, Env, test_param_overflow}
use rzi.At.Output.{respond_status}
use rzi.At.Registry.{Registry}
use rzi.At.Parser.{Parser, reset, execute, feed, feed_all}

-- The bytes that the parser keeps.
abbrev pub IsPrintable : List ℕ → Type 0
IsPrintable [] = Unit
IsPrintable (b ∷ bs) = (32 ≤ b) × (b ≤ 126) × IsPrintable bs

feed_in_bounds :
    (env : Env) (r : Registry) (byte : ℕ) (p : Parser) (s : Service)
    → length p.line < env.line_max
    → length (feed env r byte p s).1.line < env.line_max
unfolding feed
feed_in_bounds env r byte p s h =
    ground (arith, length-append p.line (byte ∷ []), length-take (length p.line - 1) p.line)

feed_all_in_bounds :
    (env : Env) (r : Registry) (bytes : List ℕ) (p : Parser) (s : Service)
    → length p.line < env.line_max
    → length (feed_all env r bytes p s).0.line < env.line_max
unfolding feed_all
feed_all_in_bounds env r [] p s h = h
feed_all_in_bounds env r (b ∷ bs) p s h =
    let (_, p', s') = feed env r b p s in
    feed_all_in_bounds env r bs p' s' (feed_in_bounds env r b p s h)

-- After a reset and any bytes, printable or not, in a build whose line buffer is not empty, the buffer
-- has room for the terminating NUL: `line[line_length]` is a valid index.
pub feed_all-InBounds :
    (env : Env) (r : Registry) (bytes : List ℕ) (s : Service)
    → 0 < env.line_max
    → length (feed_all env r bytes reset s).0.line < env.line_max
unfolding reset
feed_all-InBounds env r bytes s some_room = feed_all_in_bounds env r bytes _ s some_room

pub feed_all-append :
    (env : Env) (r : Registry) (bs cs : List ℕ) (p : Parser) (s : Service)
    → let (p', s') = feed_all env r bs p s in
      feed_all env r (bs ++ cs) p s ≡ feed_all env r cs p' s'
unfolding feed_all
feed_all-append env r [] cs p s = refl
feed_all-append env r (b ∷ bs) cs p s =
    let (_, p', s') = feed env r b p s in feed_all-append env r bs cs p' s'

-- A parser inside a line.
abbrev buffer : List ℕ → Bool → Parser
buffer l overflow = record { line = l; line_overflow = overflow; ignore_lf = false }

-- What becomes of one complete line: too long, empty, or executed.
abbrev pub serve_line : Env → Registry → List ℕ → Service → Service
serve_line env r l s =
    if leb env.line_max (length l)
    then (respond_status env test_param_overflow s).1
    else if length l == 0
    then s
    else execute env r l s

abbrev pub serve_lines : Env → Registry → List (List ℕ) → Service → Service
serve_lines env r [] s = s
serve_lines env r (l ∷ ls) s = serve_lines env r ls (serve_line env r l s)

-- The stream of bytes of lines that each end with CR LF.
abbrev pub stream : List (List ℕ) → List ℕ
stream [] = []
stream (l ∷ ls) = l ++ (13 ∷ 10 ∷ stream ls)

abbrev pub AllPrintable : List (List ℕ) → Type 0
AllPrintable [] = Unit
AllPrintable (l ∷ ls) = IsPrintable l × AllPrintable ls

module _ (env : Env) (r : Registry) (quiet : env.echo_configured ≡ false) where
  feed_printable :
      (b : ℕ) (l : List ℕ) (o : Bool) (s : Service)
      → 32 ≤ b
      → b ≤ 126
      → suc (length l) < env.line_max
      → feed env r b (buffer l o) s ≡ (pos 0, buffer (l ++ (b ∷ [])) o, s)
  unfolding feed
  feed_printable b l o s lo hi room = ground (arith, quiet)

  feed_full :
      (b : ℕ) (l : List ℕ) (o : Bool) (s : Service)
      → 32 ≤ b
      → b ≤ 126
      → env.line_max ≤ suc (length l)
      → feed env r b (buffer l o) s ≡ (fail Err.overflow, buffer l true, s)
  unfolding feed
  feed_full b l o s lo hi room = ground (arith, quiet)

  -- Printable bytes that fit are appended to the line.
  feed_all_fits :
      (bs l : List ℕ) (s : Service)
      → IsPrintable bs
      → length l + length bs < env.line_max
      → feed_all env r bs (buffer l false) s ≡ (buffer (l ++ bs) false, s)
  unfolding feed_all
  feed_all_fits [] l s pr room = rw append-nil
  feed_all_fits (b ∷ bs) l s pr room =
      rw (feed_printable b l false s pr.0 pr.1 (omega arith), ← append_assoc l (b ∷ []) bs)
        (feed_all_fits bs (l ++ (b ∷ [])) s pr.2 (omega (arith, length-append l (b ∷ []))))

  -- Bytes that do not fit set the overflow flag, and it stays.
  feed_all_long :
      (bs l : List ℕ) (o : Bool) (s : Service)
      → IsPrintable bs
      → (o ≡ true) ⊎ (env.line_max ≤ length l + length bs)
      → length l < env.line_max
      → (k : List ℕ) × (feed_all env r bs (buffer l o) s ≡ (buffer k true, s))
  unfolding feed_all
  feed_all_long [] l o s pr (inl e) room = (l, rw e)
  feed_all_long [] l o s pr (inr e) room = absurd (omega arith)
  feed_all_long (b ∷ bs) l o s pr e room = elim (Bool-cases (leb env.line_max (suc (length l)))) [
    | inl full ↦
        rw (feed_full b l o s pr.0 pr.1 (ground arith))
          (feed_all_long bs l true s pr.2 (inl refl) room)
    | inr more ↦ rw (feed_printable b l o s pr.0 pr.1 (ground arith)) (
        feed_all_long bs (l ++ (b ∷ [])) o s pr.2 (still e)
          (ground (arith, length-append l (b ∷ []))))
  ]
    where
      still :
          (o ≡ true) ⊎ (env.line_max ≤ length l + suc (length bs))
          → (o ≡ true) ⊎ (env.line_max ≤ length (l ++ (b ∷ [])) + length bs)
      still (inl x) = inl x
      still (inr y) = inr (omega (arith, length-append l (b ∷ [])))

  end_overflow :
      (l cs : List ℕ) (s : Service)
      → feed_all env r (13 ∷ 10 ∷ cs) (buffer l true) s
        ≡ feed_all env r cs reset (respond_status env test_param_overflow s).1
  unfolding feed_all feed reset
  end_overflow l cs s = ground (arith, quiet)

  end_line :
      (l cs : List ℕ) (s : Service)
      → feed_all env r (13 ∷ 10 ∷ cs) (buffer l false) s
        ≡ feed_all env r cs reset (if length l == 0 then s else execute env r l s)
  unfolding feed_all feed reset
  end_line [] cs s = ground (arith, quiet)
  end_line (x ∷ l) cs s = ground (arith, quiet)

  serve_one :
      (l cs : List ℕ) (s : Service)
      → 0 < env.line_max
      → IsPrintable l
      → feed_all env r (l ++ (13 ∷ 10 ∷ cs)) (buffer [] false) s
        ≡ feed_all env r cs reset (serve_line env r l s)
  serve_one l cs s some_room pr = elim (Bool-cases (leb env.line_max (length l))) [
    | inl long ↦
        let (k, e) = feed_all_long l [] false s pr (inr (ground (arith, long))) some_room in
        rw (feed_all-append env r l (13 ∷ 10 ∷ cs) (buffer [] false) s, e, long)
          (end_overflow k cs s)
    | inr fits ↦
        rw
          (
            feed_all-append env r l (13 ∷ 10 ∷ cs) (buffer [] false) s,
            feed_all_fits l [] s pr (ground (arith, fits)),
            fits,
          )
          (end_line l cs s)
  ]

  -- Lines of printable bytes, each ended by CR LF and read without echo into a buffer that is not
  -- empty, are served one by one and in order: an empty line does nothing, a line that fits the
  -- buffer is executed as it was sent, a longer one is only answered with the overflow status, and
  -- the parser is then as after a reset.
  pub feed_all-stream :
      (ls : List (List ℕ)) (s : Service)
      → 0 < env.line_max
      → AllPrintable ls
      → feed_all env r (stream ls) reset s ≡ (reset, serve_lines env r ls s)
  unfolding reset
  feed_all-stream [] s some_room pr = unfold feed_all in refl
  feed_all-stream (l ∷ ls) s some_room pr =
      serve_one l (stream ls) s some_room pr.0
      ∙ feed_all-stream ls (serve_line env r l s) some_room pr.1

  -- Without echo and with room in the line, rubbing out a printable byte that was just typed, by
  -- either backspace byte, restores the line, without a byte of output.
  pub feed-backspace :
      (b back : ℕ) (p : Parser) (s : Service)
      → 32 ≤ b
      → b ≤ 126
      → (back ≡ 8) ⊎ (back ≡ 127)
      → suc (length p.line) < env.line_max
      → feed_all env r (b ∷ back ∷ []) p s ≡ (record p { ignore_lf = false }, s)
  unfolding feed_all feed
  feed-backspace b back p s lo hi isback room =
      ground (arith, quiet, length-append p.line (b ∷ []), take-append p.line (b ∷ []))
