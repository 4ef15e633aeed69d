-- ===== src/Stun/Walk.antt =====
-- The loop over the attributes of a message, which `parse_stun_response`, `parse_turn_error_401`,
-- `parse_stun_attr` and `parse_turn_data` of agent/src/webrtc.rs each write out with a body of
-- their own. The body is an argument here: it is given the type and the range of the value, and
-- either goes on with new variables or returns from the function.
use any_kvm.Common.{
  ℕ, zero, suc, ◌+◌, ◌*◌, ◌/◌, ◌≤◌, ◌<◌, ◌≡◌, true, false, arith, min, ltb, leb, length, Bool-cases,
  inl, inr, leb→le, lt→ltb, ltb→lt,
}
use any_kvm.Common.Bytes.{Bytes, from_be_bytes_16}
use any_kvm.Common.Outcome.{Outcome, ok, out_of_fuel, ◌>>=◌, at, at-ok, Ensures, Ensures-bind}

pub data Flow (S R : Type 0) : Type 0 where
  next : S → Flow S R
  done : R → Flow S R

-- `(n + 3) & !3`
abbrev pub align4 : ℕ → ℕ
align4 n = (n + 3) / 4 * 4

-- `u16::from_be_bytes([pkt[i], pkt[i+1]])`
unfoldable pub u16_at : {E : Type 0} → Bytes → ℕ → Outcome E ℕ
u16_at pkt i = do b1 ← at pkt i; b0 ← at pkt (i + 1); ok (from_be_bytes_16 b1 b0)

pub u16_at-ok :
    (E : Type 0) (pkt : Bytes) (i : ℕ)
    → i + 1 < length pkt
    → (n : ℕ) × (u16_at {E = E} pkt i ≡ ok n)
unfolding u16_at
u16_at-ok E pkt i h =
    let (b1, e, _) = at-ok {E = E} pkt i (omega arith) in
    let (b0, e', _) = at-ok {E = E} pkt (i + 1) h in (from_be_bytes_16 b1 b0, rw (e, e'))

module _ {E S R : Type 0} (body : S → ℕ → ℕ → ℕ → Outcome E (Flow S R)) (pkt : Bytes)
    (end : ℕ) where
  -- `while pos + 4 <= end { … }`. The variables at the loop's end come as `next`, and `done` is a
  -- `return` in the body.
  unfoldable pub walk : ℕ → ℕ → S → Outcome E (Flow S R)
  walk zero pos s = out_of_fuel
  walk (suc fuel) pos s = elim (leb (pos + 4) end) [
    | false ↦ ok (next s)
    | true ↦ u16_at pkt pos >>= λ attr_type. u16_at pkt (pos + 2) >>= λ attr_len.
        elim (ltb (length pkt) (pos + 4 + attr_len)) [
          | true ↦ ok (next s)
          | false ↦ body s attr_type (pos + 4) (pos + 4 + attr_len) >>= λ flow. elim flow [
            | done r ↦ ok (done r)
            | next s' ↦ walk fuel (pos + (4 + align4 attr_len)) s'
          ]
        ]
  ]

  -- One round of the loop: the test fails, an attribute is cut off, or the body runs.
  pub walk_stop : (fuel pos : ℕ) (s : S) → end < pos + 4 → walk (suc fuel) pos s ≡ ok (next s)
  unfolding walk
  walk_stop fuel pos s h = rw (ltb_false h, walk)
    where
      ltb_false : end < pos + 4 → leb (pos + 4) end ≡ false
      ltb_false h = ground arith

  module _ (fuel pos : ℕ) (s : S) {ty len : ℕ} (fits : pos + 4 ≤ end)
      (e : u16_at {E = E} pkt pos ≡ ok ty) (e' : u16_at {E = E} pkt (pos + 2) ≡ ok len) where
    test : leb (pos + 4) end ≡ true
    test = ground arith

    pub walk_cut : length pkt < pos + 4 + len → walk (suc fuel) pos s ≡ ok (next s)
    unfolding walk
    walk_cut h = rw (test, walk) (rw e (rw e' (rw (lt→ltb _ _ h, ◌>>=◌))))

    pub walk_body :
        pos + 4 + len ≤ length pkt
        → walk (suc fuel) pos s ≡ (
            body s ty (pos + 4) (pos + 4 + len) >>= λ flow. elim flow [
              | done r ↦ ok (done r)
              | next s' ↦ walk fuel (pos + (4 + align4 len)) s'
            ])
    unfolding walk
    walk_body h = rw (test, walk) (rw e (rw e' (rw (whole, ◌>>=◌))))
      where
        whole : ltb (length pkt) (pos + 4 + len) ≡ false
        whole = ground arith

-- `end` of a message: what its length field says, or the end of the packet if that comes first.
unfoldable pub message_end : {E : Type 0} → Bytes → Outcome E ℕ
message_end pkt = do msg_len ← u16_at pkt 2; ok (min (20 + msg_len) (length pkt))

pub message_end-ok :
    (E : Type 0) (pkt : Bytes)
    → 20 ≤ length pkt
    → (n : ℕ) × (message_end {E = E} pkt ≡ ok n) × (n ≤ length pkt)
unfolding message_end
message_end-ok E pkt h =
    let (n, e) = u16_at-ok E pkt 2 (omega arith) in (min (20 + n) (length pkt), rw e, omega arith)

-- What holds of the loop's two ways out.
abbrev pub FlowIs : {S R : Type 0} → (S → Type 0) → (R → Type 0) → Flow S R → Type 0
FlowIs P Q (next s) = P s
FlowIs P Q (done r) = Q r

module _ {E S R : Type 0} (P : S → Type 0) (Q : R → Type 0)
    (body : S → ℕ → ℕ → ℕ → Outcome E (Flow S R)) (pkt : Bytes) (end : ℕ)
    (inside : end ≤ length pkt)
    (body_keeps : (s : S) (ty lo hi : ℕ)
      → lo ≤ hi
      → hi ≤ length pkt
      → P s
      → Ensures (body s ty lo hi) (FlowIs P Q)) where
  -- With fuel for what is left the loop neither panics nor runs out of fuel, and keeps what the
  -- body keeps.
  pub walk-Ensures :
      (fuel pos : ℕ) (s : S)
      → 0 < fuel
      → end < pos + 4 * fuel
      → P s
      → Ensures (walk body pkt end fuel pos s) (FlowIs P Q)
  walk-Ensures zero pos s f h p = absurd (omega arith)
  walk-Ensures (suc fuel) pos s f h p = elim (Bool-cases (leb (pos + 4) end)) [
    | inr stop ↦ rw (walk_stop body pkt end fuel pos s (ground arith)) p
    | inl more ↦
        let fits : pos + 4 ≤ end = leb→le _ _ more in
        let (ty, e) = u16_at-ok E pkt pos (omega arith) in
        let (len, e') = u16_at-ok E pkt (pos + 2) (omega arith) in
        elim (Bool-cases (ltb (length pkt) (pos + 4 + len))) [
          | inl cut ↦ rw (walk_cut body pkt end fuel pos s fits e e' (ltb→lt _ _ cut)) p
          | inr whole ↦ rw (walk_body body pkt end fuel pos s fits e e' (ground arith)) (
              Ensures-bind (FlowIs P Q) (FlowIs P Q) (body s ty (pos + 4) (pos + 4 + len)) _
                (body_keeps s ty (pos + 4) (pos + 4 + len) (omega arith) (ground arith) p)
                (elim [
                  | done r ↦ λ q. q
                  | next s' ↦ λ q.
                      walk-Ensures fuel (pos + (4 + align4 len)) s' (omega arith) (omega arith) q
                ]))
        ]
  ]
