-- ===== src/Stun/Encode.antt =====
-- What `append_attr` of agent/src/webrtc.rs writes, as a list of attributes, and the attribute loop
-- over it.
use any_kvm.Common.{
  ℕ, zero, suc, ◌+◌, ◌-◌, ◌%◌, ◌^◌, ◌<◌, ◌≡◌, refl, sym, ap, ◌∙◌, List, [], ◌∷◌, ◌++◌, append-nil,
  append_assoc, arith, length, replicate, All, length-append, length-replicate, take-append,
  drop-append,
}
use mathlib.Core.Path.{fun_ext}
use any_kvm.Common.Bytes.{Bytes, to_be_bytes_16}
use any_kvm.Common.Outcome.{Outcome, ok, ◌>>=◌, at, slice, slice-ok, at-append_right}
use any_kvm.Stun.{append_attr}
use any_kvm.Stun.Walk.{Flow, next, done, align4, u16_at, walk, walk_stop, walk_body}

-- An attribute to write, and the bytes that it becomes.
pub record Attr : Type 0 where
  pub kind : ℕ
  pub value : Bytes

-- The type and the length each fit their two bytes.
abbrev pub IsAttr : Attr → Type 0
IsAttr a = (a.kind < 2 ^ 16) × (length a.value < 2 ^ 16)

abbrev pub head : Attr → Bytes
head a = to_be_bytes_16 a.kind ++ to_be_bytes_16 (length a.value % 2 ^ 16)

abbrev pub padding : Bytes → Bytes
padding value = replicate ((4 - length value % 4) % 4) 0

abbrev pub encode : List Attr → Bytes
encode [] = []
encode (a ∷ rest) = head a ++ (a.value ++ (padding a.value ++ encode rest))

-- The attributes appended one after another.
abbrev pub append_attrs : Bytes → List Attr → Bytes
append_attrs buf [] = buf
append_attrs buf (a ∷ rest) = append_attrs (append_attr buf a.kind a.value) rest

pub append_attrs-encode :
    (buf : Bytes) (rest : List Attr) → append_attrs buf rest ≡ buf ++ encode rest
append_attrs-encode buf [] = sym (append-nil buf)
append_attrs-encode buf (a ∷ rest) =
    append_attrs-encode (append_attr buf a.kind a.value) rest
    ∙ unfold append_attr in simp append_assoc

-- An attribute takes its value's length, rounded up to a multiple of four, and four bytes.
pub length-encode :
    (a : Attr) (rest : List Attr)
    → length (encode (a ∷ rest)) ≡ 4 + align4 (length a.value) + length (encode rest)
length-encode a rest = omega (
  arith,
  length-append a.value (padding a.value ++ encode rest),
  length-append (padding a.value) (encode rest),
  length-replicate {A = ℕ} ((4 - length a.value % 4) % 4) 0,
)

u16_at-append_right :
    (E : Type 0) (xs ys : Bytes) (i : ℕ) → u16_at {E = E} (xs ++ ys) (length xs + i) ≡ u16_at ys i
unfolding u16_at
u16_at-append_right E xs ys i =
    let e : length xs + i + 1 ≡ length xs + (i + 1) = omega arith in
    rw (e, at-append_right {E = E} xs ys i, at-append_right {E = E} xs ys (i + 1))

-- The slice that covers the middle one of three strings.
pub slice_middle :
    (E : Type 0) (xs ys zs : Bytes)
    → slice {E = E} (xs ++ (ys ++ zs)) (length xs) (length xs + length ys) ≡ ok ys
slice_middle E xs ys zs =
    let e : length xs + length ys - length xs ≡ length ys = omega arith in
    slice-ok (xs ++ (ys ++ zs)) (length xs) (length xs + length ys) (omega arith)
      (omega (arith, length-append xs (ys ++ zs), length-append ys zs))
    ∙ rw (e, drop-append xs (ys ++ zs), take-append ys zs)

module _ {E S R : Type 0} (body : S → ℕ → ℕ → ℕ → Outcome E (Flow S R)) where
  -- The loop's body on each attribute in turn, the first at position `pos`.
  abbrev pub run : ℕ → S → List Attr → Outcome E (Flow S R)
  run pos s [] = ok (next s)
  run pos s (a ∷ rest) = body s a.kind (pos + 4) (pos + 4 + length a.value) >>= λ flow. elim flow [
    | done r ↦ ok (done r)
    | next s' ↦ run (pos + (4 + align4 (length a.value))) s' rest
  ]

  u16_at-kind :
      (pre : Bytes) (a : Attr) (rest : List Attr)
      → IsAttr a
      → u16_at {E = E} (pre ++ encode (a ∷ rest)) (length pre) ≡ ok a.kind
  unfolding u16_at at
  u16_at-kind pre a rest h =
      let e : length pre ≡ length pre + 0 = omega arith in
      ap (u16_at (pre ++ encode (a ∷ rest))) e
      ∙ u16_at-append_right E pre (encode (a ∷ rest)) 0
      ∙ ap ok (omega arith)

  u16_at-length :
      (pre : Bytes) (a : Attr) (rest : List Attr)
      → IsAttr a
      → u16_at {E = E} (pre ++ encode (a ∷ rest)) (length pre + 2) ≡ ok (length a.value)
  unfolding u16_at at
  u16_at-length pre a rest h = u16_at-append_right E pre (encode (a ∷ rest)) 2 ∙ ap ok (omega arith)

  pub shift :
      (pre : Bytes) (a : Attr) (rest : List Attr)
      → pre ++ encode (a ∷ rest) ≡ (pre ++ (head a ++ (a.value ++ padding a.value))) ++ encode rest
  shift pre a rest = simp append_assoc

  pub length-shift :
      (pre : Bytes) (a : Attr)
      → length (pre ++ (head a ++ (a.value ++ padding a.value)))
        ≡ length pre + (4 + align4 (length a.value))
  length-shift pre a = omega (
    arith,
    length-append pre (head a ++ (a.value ++ padding a.value)),
    length-append a.value (padding a.value),
    length-replicate {A = ℕ} ((4 - length a.value % 4) % 4) 0,
  )

  -- Over a prefix and encoded attributes the loop runs its body on each of them, and ends.
  pub walk-encode :
      (attrs : List Attr) (pre : Bytes) (fuel : ℕ) (s : S) (pkt : Bytes)
      → pkt ≡ pre ++ encode attrs
      → All IsAttr attrs
      → length attrs < fuel
      → walk body pkt (length pkt) fuel (length pre) s ≡ run (length pre) s attrs
  walk-encode attrs pre zero s pkt e h f = absurd (omega arith)
  walk-encode [] pre (suc fuel) s pkt e h f =
      walk_stop body pkt (length pkt) fuel (length pre) s (rw (e, append-nil) (omega arith))
  walk-encode (a ∷ rest) pre (suc fuel) s pkt e h f =
      let size : length pkt ≡ length pre + (4 + align4 (length a.value) + length (encode rest)) =
        ap length e
        ∙ length-append pre (encode (a ∷ rest))
        ∙ ap (λ (t : ℕ). length pre + t) (length-encode a rest) in
      walk_body body pkt (length pkt) fuel (length pre) s (omega arith)
        (rw e (u16_at-kind pre a rest h.0)) (rw e (u16_at-length pre a rest h.0)) (omega arith)
      ∙ ap
          (λ (k : S → Outcome E (Flow S R)).
            body s a.kind (length pre + 4) (length pre + 4 + length a.value) >>= λ flow. elim flow [
              | done r ↦ ok (done r)
              | next s' ↦ k s'
            ])
          (fun_ext (λ s'.
            ap (λ (p : ℕ). walk body pkt (length pkt) fuel p s') (sym (length-shift pre a))
            ∙ walk-encode rest (pre ++ (head a ++ (a.value ++ padding a.value))) fuel s' pkt
                (e ∙ shift pre a rest) h.1 (omega arith)
            ∙ ap (λ (p : ℕ). run p s' rest) (length-shift pre a)))

-- The value of the attribute behind a prefix.
pub slice-value :
    (E : Type 0) (pre : Bytes) (a : Attr) (rest : List Attr)
    → slice {E = E} (pre ++ encode (a ∷ rest)) (length pre + 4) (length pre + 4 + length a.value)
      ≡ ok a.value
slice-value E pre a rest =
    let e : length (pre ++ head a) ≡ length pre + 4 = length-append pre (head a) in
    rw (← e) (
      rw (← append_assoc pre (head a) (a.value ++ (padding a.value ++ encode rest)))
        (slice_middle E (pre ++ head a) a.value (padding a.value ++ encode rest)))

module _ {E S R : Type 0} (on_value : S → ℕ → Bytes → Outcome E (Flow S R)) where
  -- A body that looks at the value only, on each attribute in turn.
  abbrev pub fold : S → List Attr → Outcome E (Flow S R)
  fold s [] = ok (next s)
  fold s (a ∷ rest) = on_value s a.kind a.value >>= λ flow. elim flow [
    | done r ↦ ok (done r)
    | next s' ↦ fold s' rest
  ]

module _ {E S R : Type 0} (on_value : S → ℕ → Bytes → Outcome E (Flow S R))
    (body : S → ℕ → ℕ → ℕ → Outcome E (Flow S R)) (pkt : Bytes)
    (reads : (s : S) (ty lo hi : ℕ) (val : Bytes)
      → slice {E = E} pkt lo hi ≡ ok val
      → body s ty lo hi ≡ on_value s ty val) where
  pub run-fold :
      (attrs : List Attr) (pre : Bytes) (s : S)
      → pkt ≡ pre ++ encode attrs
      → run body (length pre) s attrs ≡ fold on_value s attrs
  run-fold [] pre s e = refl
  run-fold (a ∷ rest) pre s e =
      rw
        (reads s a.kind (length pre + 4) (length pre + 4 + length a.value) a.value
          (rw e (slice-value E pre a rest)))
        (ap
          (λ (k : S → Outcome E (Flow S R)). on_value s a.kind a.value >>= λ flow. elim flow [
            | done r ↦ ok (done r)
            | next s' ↦ k s'
          ])
          (fun_ext (λ s'.
            ap (λ (p : ℕ). run body p s' rest) (sym (length-shift body pre a))
            ∙ run-fold rest (pre ++ (head a ++ (a.value ++ padding a.value))) s'
                (e ∙ shift body pre a rest))))
