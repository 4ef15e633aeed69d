-- ===== src/Audio/Inputs.antt =====
-- What the Opus encoder of agent/src/audio.rs is given.
use any_kvm.Common.{
  ℕ, suc, ◌-◌, ◌*◌, ◌≤◌, ◌<◌, ◌≡◌, refl, sym, subst, Option, none, some, List, [], ◌∷◌, ◌++◌, arith,
  ltb, ◌==◌, if◌then◌else◌, length, take, replicate, All, ap, ◌∙◌, length-append, length-take,
  length-replicate, take-append, Bool-cases, inl, inr,
}
use any_kvm.Common.Bytes.{Bytes}
use any_kvm.Common.Outcome.{Outcome, ok, ◌>>=◌, slice, slice-ok}
use any_kvm.Turn.Client.{fill}
use any_kvm.Audio.{Tick, AudioEnd, finished, running, encode_error, clear_rest, audio_loop}

length-fill : (buf s : List ℕ) → length (fill buf s) ≡ length buf
length-fill buf [] = refl
length-fill [] (x ∷ s) = refl
length-fill (b ∷ buf) (x ∷ s) = ap suc (length-fill buf s)

take-fill : (buf s : List ℕ) → length s ≤ length buf → take (length s) (fill buf s) ≡ s
take-fill buf [] h = refl
take-fill [] (x ∷ s) h = absurd (omega arith)
take-fill (b ∷ buf) (x ∷ s) h = ap (λ (t : List ℕ). x ∷ t) (take-fill buf s (omega arith))

length-clear_rest : (filled : ℕ) (buf : List ℕ) → length (clear_rest filled buf) ≡ length buf
unfolding clear_rest
length-clear_rest filled buf = elim (Bool-cases (ltb filled (length buf))) [
  | inr e ↦ rw e refl
  | inl e ↦
      let less : filled < length buf = ground arith in
      rw e (
        omega (
          arith,
          length-append (take filled buf) (replicate (length buf - filled) 0),
          length-take filled buf,
          length-replicate {A = ℕ} (length buf - filled) 0,
        ))
]

take-clear_rest :
    (filled : ℕ) (buf : List ℕ)
    → filled ≤ length buf
    → take filled (clear_rest filled buf) ≡ take filled buf
unfolding clear_rest
take-clear_rest filled buf h = elim (Bool-cases (ltb filled (length buf))) [
  | inr e ↦ rw e refl
  | inl e ↦
      let size : length (take filled buf) ≡ filled = omega (arith, length-take filled buf) in
      rw e (
        subst
          (λ (n : ℕ).
            take n (take filled buf ++ replicate (length buf - filled) 0) ≡ take filled buf)
          size (take-append (take filled buf) (replicate (length buf - filled) 0)))
]

-- The slice that the encoder gets is what was read.
input-ok :
    (buf s : List ℕ)
    → length s ≤ length buf
    → slice {E = ⊥} (clear_rest (length s) (fill buf s)) 0 (length s) ≡ ok s
input-ok buf s h =
    slice-ok {E = ⊥} (clear_rest (length s) (fill buf s)) 0 (length s) (omega arith)
      (omega (arith, length-clear_rest (length s) (fill buf s), length-fill buf s))
    ∙ ap ok (
        ap (λ (n : ℕ). take n (clear_rest (length s) (fill buf s))) no_offset
        ∙ take-clear_rest (length s) (fill buf s) (omega (arith, length-fill buf s))
        ∙ take-fill buf s h)
  where
    no_offset : length s - 0 ≡ length s
    no_offset = omega arith

-- A round in which something was read, with what the encoder makes of it and what comes after.
abbrev pub hear : Tick → Option Bytes → AudioEnd × List (List ℕ) → AudioEnd × List (List ℕ)
hear t none more = (encode_error, t.samples ∷ [])
hear t (some frame) more =
    if t.delivered then (more.0, t.samples ∷ more.1) else (finished, t.samples ∷ [])

-- How the loop ends, and what the encoder gets, told without a buffer: the samples of every round in
-- which something was read, up to the first that cannot be encoded or whose frame cannot be sent.
abbrev pub heard : (List ℕ → Option Bytes) → List Tick → AudioEnd × List (List ℕ)
heard encode [] = (running, [])
heard encode (t ∷ ticks) =
    let more = heard encode ticks in if t.read == 0 then more else hear t (encode t.samples) more

-- The device reads whole frames, and no more than the buffer holds.
abbrev pub IsRead : ℕ → ℕ → Tick → Type 0
IsRead channels size t = (length t.samples ≡ t.read * channels) × (length t.samples ≤ size)

module _ (channels : ℕ) (encode : List ℕ → Option Bytes) where
  round-heard :
      (t : Tick) (coded : Option Bytes) (encoded : Outcome ⊥ (AudioEnd × List (List ℕ)))
      {more : AudioEnd × List (List ℕ)}
      → encoded ≡ ok more
      → (elim coded [
        | none ↦ ok (encode_error, t.samples ∷ [])
        | some frame ↦
            if t.delivered
            then (encoded >>= λ more. ok (more.0, t.samples ∷ more.1))
            else ok (finished, t.samples ∷ [])
      ])
        ≡ ok (hear t coded more)
  round-heard t none encoded e = refl
  round-heard t (some frame) encoded e = elim (Bool-cases t.delivered) [
    | inl d ↦ rw (d, e) refl
    | inr d ↦ rw d refl
  ]

  -- The encoder gets exactly what was read, round by round.
  pub audio_loop-heard :
      (pcm_buf : List ℕ) (ticks : List Tick)
      → All (IsRead channels (length pcm_buf)) ticks
      → audio_loop channels encode pcm_buf ticks ≡ ok (heard encode ticks)
  unfolding audio_loop
  audio_loop-heard pcm_buf [] h = refl
  audio_loop-heard pcm_buf (t ∷ ticks) h = elim (Bool-cases (t.read == 0)) [
    | inl e ↦ rw e (
        audio_loop-heard (fill pcm_buf t.samples) ticks (
          subst (λ (n : ℕ). All (IsRead channels n) ticks) (sym (length-fill pcm_buf t.samples))
            h.1))
    | inr e ↦
        let kept = fill pcm_buf t.samples in
        let input =
          subst (λ (n : ℕ). slice {E = ⊥} (clear_rest n kept) 0 n ≡ ok t.samples) h.0.0
            (input-ok pcm_buf t.samples h.0.1) in
        let size = length-clear_rest (t.read * channels) kept ∙ length-fill pcm_buf t.samples in
        let rest =
          audio_loop-heard (clear_rest (t.read * channels) kept) ticks
            (subst (λ (n : ℕ). All (IsRead channels n) ticks) (sym size) h.1) in
        rw e (rw input (round-heard t (encode t.samples) _ rest))
  ]
