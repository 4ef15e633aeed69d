-- ===== src/Turn/Data.antt =====
-- `parse_turn_error_401` and `parse_turn_data` of agent/src/webrtc.rs.
use any_kvm.Common.{
  ℕ, ◌≤◌, Option, none, some, arith, ltb, ◌==◌, if◌then◌else◌, length, Bool-cases, inl, inr,
}
use any_kvm.Common.Bytes.{Bytes}
use any_kvm.Common.Outcome.{
  Outcome, ok, err, panicked, out_of_fuel, ◌>>=◌, slice, slice-ok, Ensures, slice-Ensures, Returns,
}
use any_kvm.Stun.{
  stun_magic, SocketAddr, StunError, too_short, missing_realm_or_nonce, parse_xor_mapped,
}
use any_kvm.Stun.Walk.{
  Flow, next, done, u16_at, u16_at-ok, walk, message_end, message_end-ok, FlowIs, walk-Ensures,
}
use any_kvm.Stun.Parse.{cookie, cookie-Ensures, parse_xor_mapped-Ensures, True}

-- The variables `realm` and `nonce` of the 401 parser.
pub record Challenge : Type 0 where
  pub realm : Option Bytes
  pub nonce : Option Bytes

unfoldable pub challenge_body : Bytes → Challenge → ℕ → ℕ → ℕ → Outcome StunError (Flow Challenge ⊥)
challenge_body pkt s attr_type lo hi =
    if attr_type == 0x0014
    then (slice pkt lo hi >>= λ v. ok (next (record s { realm = some v })))
    else if attr_type == 0x0015
    then (slice pkt lo hi >>= λ v. ok (next (record s { nonce = some v })))
    else ok (next s)

abbrev pub both : Option Bytes → Option Bytes → Outcome StunError (Bytes × Bytes)
both (some r) (some n) = ok (r, n)
both (some r) none = err missing_realm_or_nonce
both none n = err missing_realm_or_nonce

-- There is no `return` in this loop, hence no `done`.
abbrev pub challenge_result : Flow Challenge ⊥ → Outcome StunError (Bytes × Bytes)
challenge_result (next s) = both s.realm s.nonce
challenge_result (done r) = absurd r

unfoldable pub parse_turn_error_401 : Bytes → Outcome StunError (Bytes × Bytes)
unfolding challenge_body
parse_turn_error_401 pkt = if ltb (length pkt) 20 then err too_short else do
  end ← message_end pkt
  flow ← walk (challenge_body pkt) pkt end (length pkt) 20 (record { realm = none; nonce = none })
  challenge_result flow

-- The variables `peer_addr` and `data_range` of the Data indication's parser.
pub record Indication : Type 0 where
  pub peer_addr : Option SocketAddr
  pub data_range : Option (ℕ × ℕ)

-- `if let Ok(a) = m`: an error is a value here, a panic is not caught.
abbrev pub attempt : {E A : Type 0} → Outcome E A → Outcome E (Option A)
attempt (ok a) = ok (some a)
attempt (err e) = ok none
attempt panicked = panicked
attempt out_of_fuel = out_of_fuel

abbrev pub or_keep : {A : Type 0} → Option A → Option A → Option A
or_keep (some a) old = some a
or_keep none old = old

unfoldable pub indication_body :
    Bytes → Indication → ℕ → ℕ → ℕ → Outcome StunError (Flow Indication ⊥)
indication_body pkt s attr_type lo hi =
    if attr_type == 0x0012
    then (slice pkt lo hi >>= λ val. attempt (parse_xor_mapped val) >>= λ found.
        ok (next (record s { peer_addr = or_keep found s.peer_addr })))
    else if attr_type == 0x0013
    then ok (next (record s { data_range = some (lo, hi) }))
    else ok (next s)

abbrev pub relayed :
    Bytes → Option SocketAddr → Option (ℕ × ℕ) → Outcome StunError (Option (SocketAddr × Bytes))
relayed pkt (some addr) (some (lo, hi)) = slice pkt lo hi >>= λ payload. ok (some (addr, payload))
relayed pkt (some addr) none = ok none
relayed pkt none range = ok none

abbrev pub indication_result :
    Bytes → Flow Indication ⊥ → Outcome StunError (Option (SocketAddr × Bytes))
indication_result pkt (next s) = relayed pkt s.peer_addr s.data_range
indication_result pkt (done r) = absurd r

unfoldable pub data_indication : Bytes → Outcome StunError (Option (SocketAddr × Bytes))
unfolding indication_body
data_indication pkt = do
  end ← message_end pkt
  flow ←
      walk (indication_body pkt) pkt end (length pkt) 20
        (record { peer_addr = none; data_range = none })
  indication_result pkt flow

-- The type is tested before the cookie is read; both are in range.
unfoldable pub parse_turn_data : Bytes → Outcome StunError (Option (SocketAddr × Bytes))
unfolding cookie data_indication
parse_turn_data pkt = if ltb (length pkt) 20 then ok none else do
  msg_type ← u16_at pkt 0
  if msg_type == 0x0017
      then (cookie pkt >>= λ magic. if magic == stun_magic then data_indication pkt else ok none)
      else ok none

challenge_body-Ensures :
    (pkt : Bytes) (s : Challenge) (ty lo hi : ℕ)
    → lo ≤ hi
    → hi ≤ length pkt
    → True s
    → Ensures (challenge_body pkt s ty lo hi) (FlowIs True True)
unfolding challenge_body
challenge_body-Ensures pkt s ty lo hi p q t = ground (arith, slice-Ensures StunError pkt lo hi p q)

both-Returns : (r n : Option Bytes) → Returns (both r n)
both-Returns (some r) (some n) = tt
both-Returns (some r) none = tt
both-Returns none n = tt

-- On every packet `parse_turn_error_401` returns a realm and a nonce or an error, with no panic and
-- within the fuel of its loop.
pub parse_turn_error_401-Returns : (pkt : Bytes) → Returns (parse_turn_error_401 pkt)
unfolding parse_turn_error_401
parse_turn_error_401-Returns pkt = elim (Bool-cases (ltb (length pkt) 20)) [
  | inl short ↦ rw (short, parse_turn_error_401) tt
  | inr long ↦
      let (end, ee, inside) = message_end-ok StunError pkt (ground arith) in
      let looped =
        walk-Ensures True True (challenge_body pkt) pkt end inside (challenge_body-Ensures pkt)
          (length pkt) 20 (record { realm = none; nonce = none }) (ground arith) (ground arith)
          tt in
      ground (arith, ee, looped)
]

-- The range that was found lies in the packet.
abbrev InRange : Bytes → Option (ℕ × ℕ) → Type 0
InRange pkt none = Unit
InRange pkt (some (lo, hi)) = (lo ≤ hi) × (hi ≤ length pkt)

abbrev IsSafe : Bytes → Indication → Type 0
IsSafe pkt s = InRange pkt s.data_range

indication_body-Ensures :
    (pkt : Bytes) (s : Indication) (ty lo hi : ℕ)
    → lo ≤ hi
    → hi ≤ length pkt
    → IsSafe pkt s
    → Ensures (indication_body pkt s ty lo hi) (FlowIs (IsSafe pkt) True)
unfolding indication_body
indication_body-Ensures pkt s ty lo hi p q t = elim (Bool-cases (ty == 0x0012)) [
  | inl peer ↦
      rw (peer, indication_body)
        (rw (slice-ok {E = StunError} pkt lo hi p q)
          (attempted (parse_xor_mapped _) (parse_xor_mapped-Ensures _)))
  | inr other ↦ rw (other, indication_body) (ground arith)
]
  where
    attempted :
        (m : Outcome StunError SocketAddr)
        → Ensures m True
        → Ensures
            (attempt m >>= λ found.
              let kept : Flow Indication ⊥ =
                next (record s { peer_addr = or_keep found s.peer_addr }) in
              ok kept)
            (FlowIs (IsSafe pkt) True)
    attempted (ok a) h = t
    attempted (err e) h = t
    attempted panicked h = absurd h
    attempted out_of_fuel h = absurd h

relayed-Returns :
    (pkt : Bytes) (addr : Option SocketAddr) (range : Option (ℕ × ℕ))
    → InRange pkt range
    → Returns (relayed pkt addr range)
relayed-Returns pkt (some addr) (some (lo, hi)) h =
    rw (slice-ok {E = StunError} pkt lo hi h.0 h.1) tt
relayed-Returns pkt (some addr) none h = tt
relayed-Returns pkt none range h = tt

data_indication-Returns : (pkt : Bytes) → 20 ≤ length pkt → Returns (data_indication pkt)
unfolding data_indication
data_indication-Returns pkt h =
    let (end, ee, inside) = message_end-ok StunError pkt h in
    let looped =
      walk-Ensures (IsSafe pkt) True (indication_body pkt) pkt end inside
        (indication_body-Ensures pkt) (length pkt) 20
        (record { peer_addr = none; data_range = none }) (ground arith) (ground arith) tt in
    rw (ee, ◌>>=◌) (result (walk (indication_body pkt) pkt end (length pkt) 20 _) looped)
  where
    result :
        (m : Outcome StunError (Flow Indication ⊥))
        → Ensures m (FlowIs (IsSafe pkt) True)
        → Returns (m >>= indication_result pkt)
    result (ok (next s)) h = relayed-Returns pkt s.peer_addr s.data_range h
    result (ok (done r)) h = absurd r
    result (err e) h = tt
    result panicked h = absurd h
    result out_of_fuel h = absurd h

-- On every packet `parse_turn_data` returns an address with the payload or nothing: it never slices
-- past the end, and its loop ends within the fuel.
pub parse_turn_data-Returns : (pkt : Bytes) → Returns (parse_turn_data pkt)
unfolding parse_turn_data
parse_turn_data-Returns pkt = elim (Bool-cases (ltb (length pkt) 20)) [
  | inl short ↦ rw (short, parse_turn_data) tt
  | inr long ↦
      let enough : 20 ≤ length pkt = ground arith in
      let (ty, te) = u16_at-ok StunError pkt 0 (ground arith) in
      rw (long, parse_turn_data)
        (rw (te, ◌>>=◌)
          (ground (arith, cookie-Ensures pkt enough, data_indication-Returns pkt enough)))
]
