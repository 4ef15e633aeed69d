-- ===== src/Webrtc/Nals.antt =====
-- `describe_h264_nals` of agent/src/webrtc.rs: the NAL units of a frame, for the log.
use any_kvm.Common.{
  ℕ, zero, suc, ◌+◌, ◌<◌, ◌≡◌, refl, Bool, true, false, ◌&&◌, Option, none, some, List, [], ◌∷◌,
  ◌++◌, arith, bit_and, leb, ltb, ◌==◌, if◌then◌else◌, length, Bool-cases, inl, inr, All,
  All-append,
}
use any_kvm.Common.Bits.{bit_and_31}
use any_kvm.Common.Bytes.{Bytes, codes}
use any_kvm.Common.Outcome.{Outcome, ok, out_of_fuel, ◌>>=◌, at, at-ok, Succeeds, Succeeds-bind}
use any_kvm.Video.Decimal.{format_u32}

-- Where the NAL unit behind a start code at `i` begins, `none` where there is no start code.
unfoldable pub start_code : Bytes → ℕ → Outcome ⊥ (Option ℕ)
start_code bytes i =
    if ltb (i + 3) (length bytes)
    then (do
      b0 ← at bytes i
      b1 ← at bytes (i + 1)
      b2 ← at bytes (i + 2)
      b3 ← at bytes (i + 3)
      ok (
          if b0 == 0 && b1 == 0
          then if b2 == 1
            then some (i + 3)
            else if leb (i + 4) (length bytes) && (b2 == 0 && b3 == 1)
            then some (i + 4)
            else none
          else none))
    else ok none

-- The type of the unit that begins at a position, if that is not past the end.
unfoldable pub nal_type : Bytes → ℕ → Outcome ⊥ (List ℕ)
nal_type bytes nal_start =
    if ltb nal_start (length bytes)
    then (do b ← at bytes nal_start; ok (bit_and b 0x1F ∷ []))
    else ok []

-- `while i < bytes.len()`, with fuel.
unfoldable pub scan : Bytes → ℕ → ℕ → Outcome ⊥ (List ℕ)
unfolding start_code nal_type
scan bytes zero i = out_of_fuel
scan bytes (suc fuel) i = elim (ltb i (length bytes)) [
  | false ↦ ok []
  | true ↦ start_code bytes i >>= λ found. elim found [
    | none ↦ scan bytes fuel (i + 1)
    | some nal_start ↦ nal_type bytes nal_start >>= λ here.
        scan bytes fuel (nal_start + 1) >>= λ more. ok (here ++ more)
  ]
]

abbrev nal_name : ℕ → Bytes
nal_name t =
    if t == 1
    then codes "P-slice"
    else if t == 5
    then codes "IDR"
    else if t == 6
    then codes "SEI"
    else if t == 7
    then codes "SPS"
    else if t == 8
    then codes "PPS"
    else if t == 9
    then codes "AUD"
    else codes "other"

abbrev describe_nal : ℕ → Bytes
describe_nal t = nal_name t ++ (codes "(" ++ (format_u32 t ++ codes ")"))

-- `types.join(", ")`
abbrev join : List ℕ → Bytes
join [] = []
join (t ∷ []) = describe_nal t
join (t ∷ u ∷ types) = describe_nal t ++ (codes ", " ++ join (u ∷ types))

abbrev pub describe : List ℕ → Bytes
describe [] = codes "none"
describe (t ∷ types) = join (t ∷ types)

-- The fuel is one more than the frame is long.
unfoldable pub describe_h264_nals : Bytes → Outcome ⊥ Bytes
unfolding scan
describe_h264_nals bytes = scan bytes (suc (length bytes)) 0 >>= λ types. ok (describe types)

-- A start code leads on.
abbrev Ahead : ℕ → Option ℕ → Type 0
Ahead i none = Unit
Ahead i (some n) = i < n

start_code-Ahead : (bytes : Bytes) (i : ℕ) → Succeeds (start_code bytes i) (Ahead i)
unfolding start_code
start_code-Ahead bytes i = elim (Bool-cases (ltb (i + 3) (length bytes))) [
  | inr short ↦ rw short tt
  | inl long ↦
      let (b0, e0, _) = at-ok {E = ⊥} bytes i (ground arith) in
      let (b1, e1, _) = at-ok {E = ⊥} bytes (i + 1) (ground arith) in
      let (b2, e2, _) = at-ok {E = ⊥} bytes (i + 2) (ground arith) in
      let (b3, e3, _) = at-ok {E = ⊥} bytes (i + 3) (ground arith) in
      rw (long, e0, e1, e2, e3) (ground arith)
]

nal_type-lt : (bytes : Bytes) (n : ℕ) → Succeeds (nal_type bytes n) (All (λ t. t < 32))
unfolding nal_type
nal_type-lt bytes n = elim (Bool-cases (ltb n (length bytes))) [
  | inr past ↦ rw past tt
  | inl inside ↦
      let (b, e, _) = at-ok {E = ⊥} bytes n (ground arith) in
      rw (inside, e) (rw (bit_and_31 b) (omega arith, tt))
]

-- What is found behind a start code, or in its absence.
scan_on-lt :
    (bytes : Bytes) (fuel i : ℕ) (found : Option ℕ)
    → ((n : ℕ) → i < n → Succeeds (scan bytes fuel n) (All (λ t. t < 32)))
    → Ahead i found
    → Succeeds
        (elim found [
          | none ↦ scan bytes fuel (i + 1)
          | some nal_start ↦ nal_type bytes nal_start >>= λ here.
              scan bytes fuel (nal_start + 1) >>= λ more. ok (here ++ more)
        ])
        (All (λ t. t < 32))
scan_on-lt bytes fuel i none ih h = ih (i + 1) (omega arith)
scan_on-lt bytes fuel i (some n) ih h =
    Succeeds-bind (All (λ t. t < 32)) (All (λ t. t < 32)) (nal_type bytes n) _ (nal_type-lt bytes n)
      (λ here k.
        Succeeds-bind (All (λ t. t < 32)) (All (λ t. t < 32)) (scan bytes fuel (n + 1)) _
          (ih (n + 1) (omega arith)) (λ more m. All-append (λ t. t < 32) here more k m))

-- A loop that ends where its test fails.
while-lt :
    (test : Bool) (round : Outcome ⊥ (List ℕ))
    → (test ≡ true → Succeeds round (All (λ t. t < 32)))
    → Succeeds (elim test [ false ↦ ok [] | true ↦ round ]) (All (λ t. t < 32))
while-lt true round h = h refl
while-lt false round h = tt

pub scan-lt :
    (bytes : Bytes) (fuel i : ℕ)
    → length bytes < fuel + i
    → 0 < fuel
    → Succeeds (scan bytes fuel i) (All (λ t. t < 32))
unfolding scan
scan-lt bytes zero i h p = absurd (omega arith)
scan-lt bytes (suc fuel) i h p = while-lt (ltb i (length bytes)) _ (λ inside.
    Succeeds-bind (Ahead i) (All (λ t. t < 32)) (start_code bytes i) _ (start_code-Ahead bytes i)
      (λ found a.
        scan_on-lt bytes fuel i found (λ n l. scan-lt bytes fuel n (ground arith) (ground arith))
          a))

-- The description of any frame is found without a panic and within the fuel, and lists NAL types
-- of five bits.
pub describe_h264_nals-Succeeds :
    (bytes : Bytes)
    → Succeeds
        (describe_h264_nals bytes)
        (λ text. (types : List ℕ) × All (λ t. t < 32) types × (text ≡ describe types))
unfolding describe_h264_nals
describe_h264_nals-Succeeds bytes =
    Succeeds-bind (All (λ t. t < 32))
      (λ text. (types : List ℕ) × All (λ t. t < 32) types × (text ≡ describe types))
      (scan bytes (suc (length bytes)) 0) _
      (scan-lt bytes (suc (length bytes)) 0 (omega arith) (omega arith))
      (λ types h. (types, h, refl))
