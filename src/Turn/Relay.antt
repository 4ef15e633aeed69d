-- ===== src/Turn/Relay.antt =====
-- XOR addresses and indications of agent/src/webrtc.rs, written and read back.
use any_kvm.Common.{
  ℕ, ◌+◌, ◌%◌, ◌^◌, ◌<◌, ◌≡◌, refl, subst, ◌∙◌, none, some, List, [], ◌∷◌, ◌++◌, arith, bit_xor,
  length, set,
}
use any_kvm.Common.Bits.{bit_xor_twice, bit_xor-lt}
use any_kvm.Common.Bytes.{Bytes, from_be_bytes_16-to_be_bytes_16, from_be_bytes_32-to_be_bytes_32}
use any_kvm.Common.Outcome.{ok, ◌>>=◌, at, slice}
use any_kvm.Stun.{stun_magic, v4, SocketAddr, StunError, stun_header, parse_xor_mapped}
use any_kvm.Stun.Walk.{align4}
use any_kvm.Stun.Encode.{
  Attr, encode, length-encode, append_attrs-encode, run, slice-value, head, padding, shift,
  length-shift,
}
use any_kvm.Stun.Find.{
  message, Fits, length-stun_header, message_end-message, walk-message, cookie-message,
  type-message, long_enough,
}
use any_kvm.Turn.{xor_peer, build_turn_send_indication, gen_txn_id}
use any_kvm.Turn.Data.{
  Indication, attempt, indication_body, indication_result, data_indication, parse_turn_data,
}

-- `parse_xor_mapped` undoes the exclusive or with which `xor_peer` hides an IPv4 address and port.
pub parse_xor_mapped-xor_peer :
    (port ipv4 : ℕ)
    → port < 2 ^ 16
    → ipv4 < 2 ^ 32
    → parse_xor_mapped (xor_peer port ipv4) ≡ ok (record { ip = v4 ipv4; port = port })
unfolding parse_xor_mapped xor_peer at
parse_xor_mapped-xor_peer port ipv4 hp ha =
    let p = bit_xor-lt 16 port 0x2112 hp (omega arith) in
    let a = bit_xor-lt 32 ipv4 stun_magic ha (omega arith) in
    rw (
      from_be_bytes_16-to_be_bytes_16 (bit_xor port 0x2112) p,
      from_be_bytes_32-to_be_bytes_32 (bit_xor ipv4 stun_magic) a,
      bit_xor_twice port 0x2112,
      bit_xor_twice ipv4 stun_magic,
    )

module _ (port ipv4 : ℕ) (payload : Bytes) where
  abbrev pub peer_attr : Attr
  peer_attr = record { kind = 0x0012; value = xor_peer port ipv4 }

  abbrev pub data_attr : Attr
  data_attr = record { kind = 0x0013; value = payload }

  abbrev pub indication_attrs : List Attr
  indication_attrs = peer_attr ∷ data_attr ∷ []

  abbrev nothing_yet : Indication
  nothing_yet = record { peer_addr = none; data_range = none }

  run_indication :
      (pre pkt : Bytes)
      → port < 2 ^ 16
      → ipv4 < 2 ^ 32
      → pkt ≡ pre ++ encode indication_attrs
      → (run (indication_body pkt) (length pre) nothing_yet indication_attrs
          >>= indication_result pkt)
        ≡ ok (some (record { ip = v4 ipv4; port = port }, payload))
  unfolding indication_body
  run_indication pre pkt hp ha e =
      let first : slice {E = StunError} pkt (length pre + 4)
            (length pre + 4 + length (xor_peer port ipv4))
          ≡ ok (xor_peer port ipv4) =
        rw e (slice-value StunError pre peer_attr (data_attr ∷ [])) in
      let pre' = pre ++ (head peer_attr ++ (xor_peer port ipv4 ++ padding (xor_peer port ipv4))) in
      let e' : pkt ≡ pre' ++ encode (data_attr ∷ []) =
        e ∙ shift (indication_body pkt) pre peer_attr (data_attr ∷ []) in
      let second : slice {E = StunError} pkt (length pre' + 4) (length pre' + 4 + length payload)
          ≡ ok payload =
        rw e' (slice-value StunError pre' data_attr []) in
      let second' = rw (length-shift (indication_body pkt) pre peer_attr) at second in
      rw (first, ◌>>=◌)
        (rw (parse_xor_mapped-xor_peer port ipv4 hp ha, attempt) (rw (second', ◌>>=◌)))

  -- The relay turns a Send indication into the peer's Data indication by the message type alone:
  -- from such a message `parse_turn_data` gives the peer's address and the payload, byte for byte.
  pub parse_turn_data-message :
      (txn_id : Bytes)
      → port < 2 ^ 16
      → ipv4 < 2 ^ 32
      → Fits 0x0017 txn_id indication_attrs
      → parse_turn_data (message 0x0017 txn_id indication_attrs)
        ≡ ok (some (record { ip = v4 ipv4; port = port }, payload))
  unfolding parse_turn_data data_indication
  parse_turn_data-message txn_id hp ha f =
      let pkt = message 0x0017 txn_id indication_attrs in
      let pre = stun_header 0x0017 (length (encode indication_attrs)) txn_id in
      let twenty =
        length-stun_header 0x0017 (length (encode indication_attrs)) txn_id f.txn_id_length in
      rw (long_enough 0x0017 txn_id indication_attrs f, parse_turn_data)
        (rw (type-message StunError 0x0017 txn_id indication_attrs f.type_fits, ◌>>=◌)
          (rw (cookie-message 0x0017 txn_id indication_attrs, ◌>>=◌)
            (rw (message_end-message StunError 0x0017 txn_id indication_attrs f, ◌>>=◌)
              (rw (walk-message (indication_body pkt) 0x0017 txn_id indication_attrs nothing_yet f)
                (subst
                  (λ (n : ℕ).
                    (run (indication_body pkt) n nothing_yet indication_attrs
                      >>= indication_result pkt)
                    ≡ ok (some (record { ip = v4 ipv4; port = port }, payload)))
                  twenty (run_indication pre pkt hp ha refl))))))

abbrev pub ipv4_peer : ℕ → ℕ → SocketAddr
ipv4_peer ipv4 port = record { ip = v4 ipv4; port = port }

length-gen_txn_id : (nanos : ℕ) → length (gen_txn_id nanos) ≡ 12
unfolding gen_txn_id
length-gen_txn_id nanos = refl

-- Twelve bytes for the address, four for the payload's head, and the padded payload.
length-indication_attrs :
    (port ipv4 : ℕ) (payload : Bytes)
    → length (encode (indication_attrs port ipv4 payload)) ≡ 16 + align4 (length payload)
unfolding xor_peer
length-indication_attrs port ipv4 payload =
    omega (arith, length-encode (data_attr port ipv4 payload) [])

pub indication_attrs-Fits :
    (port ipv4 nanos : ℕ) (payload : Bytes)
    → length payload < 65517
    → Fits 0x0017 (gen_txn_id nanos) (indication_attrs port ipv4 payload)
indication_attrs-Fits port ipv4 nanos payload h = record {
  type_fits = omega arith;
  txn_id_length = length-gen_txn_id nanos;
  attrs_fit = unfold xor_peer in omega arith;
  body_fits = omega (arith, length-indication_attrs port ipv4 payload);
}

-- The Send indication is a message with the two attributes, with the type 0x0016.
pub build_turn_send_indication-message :
    (nanos port ipv4 : ℕ) (payload : Bytes)
    → length payload < 65517
    → build_turn_send_indication nanos (ipv4_peer ipv4 port) payload
      ≡ message 0x0016 (gen_txn_id nanos) (indication_attrs port ipv4 payload)
unfolding build_turn_send_indication
build_turn_send_indication-message nanos port ipv4 payload h =
    let e = append_attrs-encode [] (indication_attrs port ipv4 payload) in
    let size : length (encode (indication_attrs port ipv4 payload)) % 2 ^ 16
        ≡ length (encode (indication_attrs port ipv4 payload)) =
      omega (arith, length-indication_attrs port ipv4 payload) in
    rw e (rw size)

-- What the relay does to a Send indication on its way to the other side: the second byte of the
-- type, 0x16, becomes 0x17.
abbrev pub as_data_indication : Bytes → Bytes
as_data_indication msg = set msg 1 0x17

-- The other end of the relay reads what `build_turn_send_indication` wrapped: for an IPv4 peer and a
-- payload of at most 65516 bytes, `parse_turn_data` gives the peer's address and port and the
-- payload, byte for byte, once the message type is that of a Data indication.
pub parse_turn_data-build_turn_send_indication :
    (nanos port ipv4 : ℕ) (payload : Bytes)
    → port < 2 ^ 16
    → ipv4 < 2 ^ 32
    → length payload < 65517
    → parse_turn_data
        (as_data_indication (build_turn_send_indication nanos (ipv4_peer ipv4 port) payload))
      ≡ ok (some (ipv4_peer ipv4 port, payload))
unfolding stun_header
parse_turn_data-build_turn_send_indication nanos port ipv4 payload hp ha h =
    rw (build_turn_send_indication-message nanos port ipv4 payload h) (
      parse_turn_data-message port ipv4 payload (gen_txn_id nanos) hp ha
        (indication_attrs-Fits port ipv4 nanos payload h))
