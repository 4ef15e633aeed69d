-- ===== src/Turn/Credentials.antt =====
-- What `parse_turn_error_401` of agent/src/webrtc.rs takes from a challenge.
use any_kvm.Common.{
  ℕ, ◌≡◌, refl, subst, ◌∙◌, Option, none, some, List, [], ◌∷◌, arith, ◌==◌, if◌then◌else◌, length,
}
use any_kvm.Common.Bytes.{Bytes}
use any_kvm.Common.Outcome.{Outcome, ok, ◌>>=◌, slice}
use any_kvm.Stun.{StunError, stun_header}
use any_kvm.Stun.Walk.{Flow, next}
use any_kvm.Stun.Encode.{Attr, encode, run, fold, run-fold}
use any_kvm.Stun.Find.{
  message, Fits, length-stun_header, message_end-message, walk-message, long_enough,
}
use any_kvm.Turn.Data.{Challenge, challenge_body, both, challenge_result, parse_turn_error_401}

-- The value of the last attribute of a type.
abbrev pub last_value : ℕ → List Attr → Option Bytes
last_value target [] = none
last_value target (a ∷ rest) = elim (last_value target rest) [
  | some v ↦ some v
  | none ↦ if a.kind == target then some a.value else none
]

abbrev or_else : Option Bytes → Option Bytes → Option Bytes
or_else (some v) old = some v
or_else none old = old

abbrev challenge_step : Challenge → ℕ → Bytes → Outcome StunError (Flow Challenge ⊥)
challenge_step s ty val =
    if ty == 0x0014
    then ok (next (record s { realm = some val }))
    else if ty == 0x0015
    then ok (next (record s { nonce = some val }))
    else ok (next s)

challenge_body-reads :
    (pkt : Bytes) (s : Challenge) (ty lo hi : ℕ) (val : Bytes)
    → slice {E = StunError} pkt lo hi ≡ ok val
    → challenge_body pkt s ty lo hi ≡ challenge_step s ty val
unfolding challenge_body
challenge_body-reads pkt s ty lo hi val e = ground arith

fold-last_value :
    (attrs : List Attr) (s : Challenge)
    → (fold challenge_step s attrs >>= challenge_result)
      ≡ both (or_else (last_value 0x0014 attrs) s.realm) (or_else (last_value 0x0015 attrs) s.nonce)
fold-last_value [] s = refl
fold-last_value (a ∷ rest) s = ground (
  arith,
  fold-last_value rest s,
  fold-last_value rest (record s { realm = some a.value }),
  fold-last_value rest (record s { nonce = some a.value }),
)

abbrev nothing_yet : Challenge
nothing_yet = record { realm = none; nonce = none }

-- From a message of well-formed attributes, whatever its type, `parse_turn_error_401` returns the
-- value of the last REALM and that of the last NONCE, and an error if one of them is missing.
pub parse_turn_error_401-message :
    (msg_type : ℕ) (txn_id : Bytes) (attrs : List Attr)
    → Fits msg_type txn_id attrs
    → parse_turn_error_401 (message msg_type txn_id attrs)
      ≡ both (last_value 0x0014 attrs) (last_value 0x0015 attrs)
unfolding parse_turn_error_401
parse_turn_error_401-message msg_type txn_id attrs f =
    let pkt = message msg_type txn_id attrs in
    let pre = stun_header msg_type (length (encode attrs)) txn_id in
    let twenty = length-stun_header msg_type (length (encode attrs)) txn_id f.txn_id_length in
    let folded =
      run-fold challenge_step (challenge_body pkt) pkt (challenge_body-reads pkt) attrs pre
        nothing_yet refl in
    rw (long_enough msg_type txn_id attrs f, parse_turn_error_401)
      (rw (message_end-message StunError msg_type txn_id attrs f, ◌>>=◌)
        (rw (walk-message (challenge_body pkt) msg_type txn_id attrs nothing_yet f) (
          rw
            (subst
              (λ (n : ℕ).
                run (challenge_body pkt) n nothing_yet attrs
                ≡ fold challenge_step nothing_yet attrs)
              twenty folded)
            (fold-last_value attrs nothing_yet ∙ ground arith))))
