-- ===== src/Turn/Runs.antt =====
-- Requests and replies that the theorems on the TURN client of agent/src/webrtc.rs are applied to.
use any_kvm.Common.{◌≡◌, ◌<◌, ◌^◌, refl, true, some, List, [], ◌∷◌, ◌++◌, arith}
use any_kvm.Common.Bytes.{Bytes, codes}
use any_kvm.Common.Outcome.{ok, panicked, Returns, Ensures, at, slice}
use any_kvm.Crypto.Hmac.{hmac_sha1}
use any_kvm.Stun.{v4, SocketAddr, stun_header, append_attr}
use any_kvm.Stun.Walk.{u16_at, walk, message_end}
use any_kvm.Stun.Parse.{True, parse_stun_response, parse_stun_attr}
use any_kvm.Stun.Encode.{Attr}
use any_kvm.Stun.Find.{message, Fits}
use any_kvm.Stun.Network.{Resolver, resolve, host_port, datagram, await_reply}
use any_kvm.Turn.{TurnState, append_identity, signed_request, build_turn_send_indication}
use any_kvm.Turn.Parsers.{parsers-Return}
use any_kvm.Turn.Data.{challenge_body, parse_turn_error_401, parse_turn_data}
use any_kvm.Turn.Client.{Exchange, turn_allocate, turn_create_permission}
use any_kvm.Turn.Allocation.{
  turn_allocate-Ensures, turn_allocate-panicked, turn_create_permission-ok,
}
use any_kvm.Turn.Relay.{ipv4_peer, as_data_indication, parse_turn_data-build_turn_send_indication}
use any_kvm.Turn.Integrity.{key_of, total, signed_part, signed_request-integrity}
use any_kvm.Turn.Credentials.{parse_turn_error_401-message}

abbrev server : SocketAddr
server = record { ip = v4 0xc0000201; port = 3478 }

abbrev ts : TurnState
ts = record {
  turn_addr = server;
  realm = codes "r";
  nonce = codes "n0";
  username = codes "user";
  password = codes "pass";
}

abbrev txn_id : Bytes
txn_id = 1 ∷ 2 ∷ 3 ∷ 4 ∷ 5 ∷ 6 ∷ 7 ∷ 8 ∷ 9 ∷ 10 ∷ 11 ∷ 12 ∷ []

-- A challenge with the realm "r" and the nonce "n0".
abbrev challenge_attrs : List Attr
challenge_attrs =
    record { kind = 0x0014; value = 0x72 ∷ [] }
    ∷ record { kind = 0x0015; value = 0x6e ∷ 0x30 ∷ [] }
    ∷ []

challenge-Fits : Fits 0x0113 txn_id challenge_attrs
challenge-Fits = record {
  type_fits = omega arith;
  txn_id_length = refl;
  attrs_fit = ((omega arith, omega arith), ((omega arith, omega arith), tt));
  body_fits = omega arith;
}

abbrev challenge : Bytes
challenge = message 0x0113 txn_id challenge_attrs

-- Any name has the server's address.
abbrev lookup_host : Resolver
lookup_host host = some (server ∷ [])

-- The second reply is empty.
abbrev broken : Exchange
broken = record {
  sent_1 = true;
  arriving_1 = datagram server challenge ∷ [];
  sent_2 = true;
  arriving_2 = datagram server [] ∷ [];
}

abbrev refused : Exchange
refused = record broken { arriving_2 = datagram server (0x01 ∷ 0x13 ∷ []) ∷ [] }

parse_turn_error_401-message_example :
    parse_turn_error_401 (message 0x0113 txn_id challenge_attrs) ≡ ok (0x72 ∷ [], 0x6e ∷ 0x30 ∷ [])
parse_turn_error_401-message_example =
    parse_turn_error_401-message 0x0113 txn_id challenge_attrs challenge-Fits

parsers-Return_example :
    Returns (parse_stun_response challenge)
    × Returns (parse_stun_attr challenge 0x0014)
    × Returns (parse_turn_error_401 challenge)
    × Returns (parse_turn_data challenge)
parsers-Return_example = parsers-Return challenge 0x0014

turn_allocate-Ensures_example :
    Ensures
      (turn_allocate lookup_host refused (codes "turn:relay") (codes "user") (codes "pass"))
      True
turn_allocate-Ensures_example =
    turn_allocate-Ensures lookup_host refused (codes "turn:relay") (codes "user") (codes "pass")
      (omega arith, tt)

resolve-server : resolve lookup_host (host_port (codes "turn:") (codes "turn:relay")) ≡ ok server
unfolding resolve
resolve-server = refl

first_reply : await_reply 1024 server broken.arriving_1 ≡ ok challenge
unfolding await_reply stun_header
first_reply = refl

second_reply : await_reply 1024 server broken.arriving_2 ≡ ok []
unfolding await_reply
second_reply = refl

challenge_read : parse_turn_error_401 challenge ≡ ok (0x72 ∷ [], 0x6e ∷ 0x30 ∷ [])
unfolding parse_turn_error_401 stun_header at slice walk u16_at message_end challenge_body
challenge_read = refl

turn_allocate-panicked_example :
    turn_allocate lookup_host broken (codes "turn:relay") (codes "user") (codes "pass") ≡ panicked
turn_allocate-panicked_example =
    turn_allocate-panicked lookup_host broken (codes "turn:relay") (codes "user") (codes "pass")
      {realm = 0x72 ∷ []} {nonce = 0x6e ∷ 0x30 ∷ []} resolve-server refl first_reply challenge_read
      refl second_reply (omega arith)

turn_create_permission-ok_example :
    turn_create_permission ts true (datagram server (0x01 ∷ 0x18 ∷ []) ∷ []) ≡ ok tt
turn_create_permission-ok_example =
    turn_create_permission-ok ts (datagram server (0x01 ∷ 0x18 ∷ []) ∷ [])

abbrev payload : Bytes
payload = codes "hello"

parse_turn_data-build_turn_send_indication_example :
    parse_turn_data
      (as_data_indication (build_turn_send_indication 5 (ipv4_peer 0xc0000201 32853) payload))
    ≡ ok (some (ipv4_peer 0xc0000201 32853, payload))
parse_turn_data-build_turn_send_indication_example =
    parse_turn_data-build_turn_send_indication 5 32853 0xc0000201 payload (omega arith)
      (omega arith) (omega arith)

small : total 0x0004 [] txn_id ts < 2 ^ 16
unfolding append_identity append_attr
small = omega arith

signed_request-integrity_example :
    signed_request 0x0004 [] txn_id ts
    ≡ signed_part 0x0004 [] txn_id ts
      ++ (0x00 ∷ 0x08 ∷ 0x00 ∷ 0x14 ∷ hmac_sha1 (key_of ts) (signed_part 0x0004 [] txn_id ts))
signed_request-integrity_example = signed_request-integrity 0x0004 [] txn_id ts small
