-- ===== src/Stun/Runs.antt =====
-- Packets that the theorems on the STUN parsers of agent/src/webrtc.rs are applied to.
use any_kvm.Common.{
  ◌≡◌, ◌≤◌, refl, some, none, ltb, length, if◌then◌else◌, List, [], ◌∷◌, ◌++◌, arith,
}
use any_kvm.Stun.{SocketAddr, v4, stun_header, parse_xor_mapped}
use any_kvm.Common.Outcome.{ok, at, slice}
use any_kvm.Common.Bytes.{Bytes, codes}
use any_kvm.Stun.Walk.{u16_at, walk, message_end}
use any_kvm.Stun.Parse.{cookie, mapped_body, parse_stun_response}
use any_kvm.Stun.Network.{Resolver, Received, datagram, Socket, stun_binding}
use any_kvm.Stun.Reply.{request_id, stun_binding-message}
use any_kvm.Stun.Encode.{Attr}
use any_kvm.Stun.Find.{message, Fits, first_mapped, parse_stun_response-message}

abbrev txn_id : Bytes
txn_id = 1 ∷ 2 ∷ 3 ∷ 4 ∷ 5 ∷ 6 ∷ 7 ∷ 8 ∷ 9 ∷ 10 ∷ 11 ∷ 12 ∷ []

-- SOFTWARE with three bytes, and XOR-MAPPED-ADDRESS for 192.0.2.1, port 32853.
abbrev attrs : List Attr
attrs =
    record { kind = 0x8022; value = 0x61 ∷ 0x62 ∷ 0x63 ∷ [] }
    ∷ record { kind = 0x0020; value = 0 ∷ 1 ∷ 0xa1 ∷ 0x47 ∷ 0xe1 ∷ 0x12 ∷ 0xa6 ∷ 0x43 ∷ [] }
    ∷ []

abbrev response : Bytes
response = message 0x0101 txn_id attrs

attrs-Fits : Fits 0x0101 txn_id attrs
attrs-Fits = record {
  type_fits = omega arith;
  txn_id_length = refl;
  attrs_fit = ((omega arith, omega arith), ((omega arith, omega arith), tt));
  body_fits = omega arith;
}

parse_stun_response_test :
    parse_stun_response response ≡ ok (record { ip = v4 0xc0000201; port = 32853 })
unfolding parse_stun_response stun_header parse_xor_mapped at cookie mapped_body walk u16_at
    message_end slice
parse_stun_response_test = refl

parse_stun_response-message_example :
    parse_stun_response (message 0x0101 txn_id attrs) ≡ first_mapped attrs
parse_stun_response-message_example = parse_stun_response-message txn_id attrs attrs-Fits

abbrev server : SocketAddr
server = record { ip = v4 0xc0000202; port = 3478 }

abbrev lookup_host : Resolver
lookup_host host = some (server ∷ [])

abbrev stranger : Received
stranger = datagram (record { ip = v4 1; port = 2 }) response

-- A socket that answers every datagram with a byte in it.
abbrev socket : Socket
socket address bytes =
    if ltb 0 (length bytes) then some (stranger ∷ datagram server response ∷ []) else none

answers :
    socket server (message 0x0001 (request_id 5) [])
    ≡ some (stranger ∷ datagram server response ∷ [])
unfolding stun_header
answers = refl

response_fits : length response ≤ 512
unfolding stun_header
response_fits = omega arith

stun_binding-message_example :
    stun_binding lookup_host socket 5 (codes "stun:" ++ codes "example.org") ≡ first_mapped attrs
stun_binding-message_example =
    stun_binding-message lookup_host socket 5 (codes "example.org") (server ∷ []) server
      (stranger ∷ []) [] txn_id attrs refl refl refl answers (refl, tt) attrs-Fits response_fits
