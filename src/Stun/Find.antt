-- ===== src/Stun/Find.antt =====
-- What the STUN parsers find in a message that the agent's own writers made.
use any_kvm.Common.{
  ℕ, ◌+◌, ◌^◌, ◌≤◌, ◌<◌, ◌≡◌, refl, ap, ◌∙◌, false, Option, none, some, List, [], ◌∷◌, ◌++◌, arith,
  ltb, ◌==◌, if◌then◌else◌, length, All, length-append,
}
use any_kvm.Common.Bytes.{Bytes}
use any_kvm.Common.Outcome.{Outcome, ok, err, ◌>>=◌, at, slice}
use any_kvm.Stun.{
  stun_header, stun_magic, SocketAddr, StunError, no_mapped_address, parse_xor_mapped, parse_mapped,
}
use any_kvm.Stun.Walk.{Flow, next, done, u16_at, walk, message_end}
use any_kvm.Stun.Parse.{
  attr_body, attr_result, parse_stun_attr, cookie, mapped_body, mapped_result, parse_stun_response,
}
use any_kvm.Stun.Encode
use any_kvm.Stun.Encode.{Attr, IsAttr, encode, run, walk-encode, fold, run-fold}

-- A message of the agent: a header and the attributes.
abbrev pub message : ℕ → Bytes → List Attr → Bytes
message msg_type txn_id attrs = stun_header msg_type (length (encode attrs)) txn_id ++ encode attrs

-- The transaction id has twelve bytes, and the attributes fit the length field.
pub record Fits (msg_type : ℕ) (txn_id : Bytes) (attrs : List Attr) : Type 0 where
  pub type_fits : msg_type < 2 ^ 16
  pub txn_id_length : length txn_id ≡ 12
  pub attrs_fit : All IsAttr attrs
  pub body_fits : length (encode attrs) < 2 ^ 16

pub length-stun_header :
    (msg_type msg_len : ℕ) (txn_id : Bytes)
    → length txn_id ≡ 12
    → length (stun_header msg_type msg_len txn_id) ≡ 20
unfolding stun_header
length-stun_header msg_type msg_len txn_id h = omega arith

pub length-message :
    (msg_type : ℕ) (txn_id : Bytes) (attrs : List Attr)
    → length txn_id ≡ 12
    → length (message msg_type txn_id attrs) ≡ 20 + length (encode attrs)
length-message msg_type txn_id attrs h =
    length-append (stun_header msg_type (length (encode attrs)) txn_id) (encode attrs)
    ∙ ap (λ (t : ℕ). t + length (encode attrs)) (length-stun_header msg_type _ txn_id h)

pub message_end-message :
    (E : Type 0) (msg_type : ℕ) (txn_id : Bytes) (attrs : List Attr)
    → Fits msg_type txn_id attrs
    → message_end {E = E} (message msg_type txn_id attrs)
      ≡ ok (length (message msg_type txn_id attrs))
unfolding message_end u16_at at stun_header
message_end-message E msg_type txn_id attrs f =
    ap ok (omega (arith, length-message msg_type txn_id attrs f.txn_id_length))

length-lt-encode : (attrs : List Attr) → length attrs ≤ length (encode attrs)
length-lt-encode [] = omega arith
length-lt-encode (a ∷ rest) = omega (
  arith,
  length-lt-encode rest,
  length-append a.value (Encode.padding a.value ++ encode rest),
  length-append (Encode.padding a.value) (encode rest),
)

-- The attribute loop over a message runs its body on the attributes in order.
pub walk-message :
    {E S R : Type 0} (body : S → ℕ → ℕ → ℕ → Outcome E (Flow S R)) (msg_type : ℕ) (txn_id : Bytes)
    (attrs : List Attr) (s : S)
    → Fits msg_type txn_id attrs
    → let pkt = message msg_type txn_id attrs in
      walk body pkt (length pkt) (length pkt) 20 s ≡ run body 20 s attrs
walk-message body msg_type txn_id attrs s f =
    let pre = stun_header msg_type (length (encode attrs)) txn_id in
    let e = length-stun_header msg_type (length (encode attrs)) txn_id f.txn_id_length in
    let w =
      walk-encode body attrs pre (length (pre ++ encode attrs)) s (pre ++ encode attrs) refl
        f.attrs_fit (omega (arith, length-append pre (encode attrs), length-lt-encode attrs)) in
    rw e at w

-- The value of the first attribute of a type.
abbrev pub first_value : ℕ → List Attr → Option Bytes
first_value target [] = none
first_value target (a ∷ rest) = if a.kind == target then some a.value else first_value target rest

abbrev find_step : ℕ → Unit {0} → ℕ → Bytes → Outcome StunError (Flow (Unit {0}) Bytes)
find_step target s ty val = if ty == target then ok (done val) else ok (next tt)

fold-first_value :
    (target : ℕ) (attrs : List Attr)
    → (fold (find_step target) tt attrs >>= attr_result) ≡ ok (first_value target attrs)
fold-first_value target [] = refl
fold-first_value target (a ∷ rest) = ground (arith, fold-first_value target rest)

attr_body-reads :
    (pkt : Bytes) (target : ℕ) (s : Unit {0}) (ty lo hi : ℕ) (val : Bytes)
    → slice {E = StunError} pkt lo hi ≡ ok val
    → attr_body pkt target s ty lo hi ≡ find_step target s ty val
unfolding attr_body
attr_body-reads pkt target s ty lo hi val e = ground arith

pub long_enough :
    (msg_type : ℕ) (txn_id : Bytes) (attrs : List Attr)
    → Fits msg_type txn_id attrs
    → ltb (length (message msg_type txn_id attrs)) 20 ≡ false
long_enough msg_type txn_id attrs f =
    ground (arith, length-message msg_type txn_id attrs f.txn_id_length)

-- In a message that `stun_header` and `append_attr` made, `parse_stun_attr` finds the value of the
-- first attribute of the wanted type, byte for byte, and nothing if there is none.
pub parse_stun_attr-message :
    (msg_type : ℕ) (txn_id : Bytes) (attrs : List Attr) (target : ℕ)
    → Fits msg_type txn_id attrs
    → parse_stun_attr (message msg_type txn_id attrs) target ≡ ok (first_value target attrs)
unfolding parse_stun_attr
parse_stun_attr-message msg_type txn_id attrs target f =
    let pkt = message msg_type txn_id attrs in
    let pre = stun_header msg_type (length (encode attrs)) txn_id in
    let twenty = length-stun_header msg_type (length (encode attrs)) txn_id f.txn_id_length in
    let folded =
      run-fold (find_step target) (attr_body pkt target) pkt (attr_body-reads pkt target) attrs pre
        tt refl in
    rw (long_enough msg_type txn_id attrs f, parse_stun_attr)
      (rw (message_end-message StunError msg_type txn_id attrs f, ◌>>=◌)
        (rw (walk-message (attr_body pkt target) msg_type txn_id attrs tt f)
          (rw (rw twenty at folded) (fold-first_value target attrs))))

-- The first attribute that names the agent's address, read by its type.
abbrev pub first_mapped : List Attr → Outcome StunError SocketAddr
first_mapped [] = err no_mapped_address
first_mapped (a ∷ rest) =
    if a.kind == 0x0020
    then parse_xor_mapped a.value
    else if a.kind == 0x0001
    then parse_mapped a.value
    else first_mapped rest

abbrev mapped_step : Unit {0} → ℕ → Bytes → Outcome StunError (Flow (Unit {0}) SocketAddr)
mapped_step s ty val =
    if ty == 0x0020
    then (parse_xor_mapped val >>= λ a. ok (done a))
    else if ty == 0x0001
    then (parse_mapped val >>= λ a. ok (done a))
    else ok (next tt)

fold-first_mapped :
    (attrs : List Attr) → (fold mapped_step tt attrs >>= mapped_result) ≡ first_mapped attrs
fold-first_mapped [] = refl
fold-first_mapped (a ∷ rest) = ground (arith, fold-first_mapped rest)

mapped_body-reads :
    (pkt : Bytes) (s : Unit {0}) (ty lo hi : ℕ) (val : Bytes)
    → slice {E = StunError} pkt lo hi ≡ ok val
    → mapped_body pkt s ty lo hi ≡ mapped_step s ty val
unfolding mapped_body
mapped_body-reads pkt s ty lo hi val e = rw (e, ◌>>=◌)

pub cookie-message :
    (msg_type : ℕ) (txn_id : Bytes) (attrs : List Attr)
    → cookie (message msg_type txn_id attrs) ≡ ok stun_magic
unfolding cookie at stun_header
cookie-message msg_type txn_id attrs = refl

pub type-message :
    (E : Type 0) (msg_type : ℕ) (txn_id : Bytes) (attrs : List Attr)
    → msg_type < 2 ^ 16
    → u16_at {E = E} (message msg_type txn_id attrs) 0 ≡ ok msg_type
unfolding u16_at at stun_header
type-message E msg_type txn_id attrs h = ap ok (omega arith)

-- In a Binding success response made of such attributes, `parse_stun_response` reads the address of
-- the first XOR-MAPPED-ADDRESS or MAPPED-ADDRESS, whichever comes first, with that attribute's own
-- errors, and reports that there is none if the message has neither.
pub parse_stun_response-message :
    (txn_id : Bytes) (attrs : List Attr)
    → Fits 0x0101 txn_id attrs
    → parse_stun_response (message 0x0101 txn_id attrs) ≡ first_mapped attrs
unfolding parse_stun_response
parse_stun_response-message txn_id attrs f =
    let pkt = message 0x0101 txn_id attrs in
    let pre = stun_header 0x0101 (length (encode attrs)) txn_id in
    let twenty = length-stun_header 0x0101 (length (encode attrs)) txn_id f.txn_id_length in
    let folded =
      run-fold mapped_step (mapped_body pkt) pkt (mapped_body-reads pkt) attrs pre tt refl in
    rw (long_enough 0x0101 txn_id attrs f, parse_stun_response)
      (rw (cookie-message 0x0101 txn_id attrs) (
        rw (type-message StunError 0x0101 txn_id attrs f.type_fits) (
          rw (message_end-message StunError 0x0101 txn_id attrs f, ◌>>=◌)
            (rw (walk-message (mapped_body pkt) 0x0101 txn_id attrs tt f)
              (rw (rw twenty at folded) (fold-first_mapped attrs))))))
