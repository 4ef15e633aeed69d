-- ===== src/Turn/Parsers.antt =====
-- The four parsers of agent/src/webrtc.rs that loop over the attributes of a STUN message.
use any_kvm.Common.{ℕ}
use any_kvm.Common.Bytes.{Bytes}
use any_kvm.Common.Outcome.{Returns}
use any_kvm.Stun.Parse.{
  parse_stun_response, parse_stun_response-Returns, parse_stun_attr, parse_stun_attr-Returns,
}
use any_kvm.Turn.Data.{
  parse_turn_error_401, parse_turn_error_401-Returns, parse_turn_data, parse_turn_data-Returns,
}

-- Every parser returns on every packet: its loop over the attributes ends within a fuel of the
-- packet's length, and no index or slice is out of range, whatever the bytes of the packet and the
-- attribute asked for.
pub parsers-Return :
    (pkt : Bytes) (target : ℕ)
    → Returns (parse_stun_response pkt)
      × Returns (parse_stun_attr pkt target)
      × Returns (parse_turn_error_401 pkt)
      × Returns (parse_turn_data pkt)
parsers-Return pkt target = (
  parse_stun_response-Returns pkt,
  parse_stun_attr-Returns pkt target,
  parse_turn_error_401-Returns pkt,
  parse_turn_data-Returns pkt,
)
