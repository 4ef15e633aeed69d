-- ===== src/Signal.antt =====
-- agent/src/signal_client.rs: the client of the signalling server. The JSON library is an argument,
-- as are the WebSocket's events and whether a connection or a write succeeds. A message that is
-- written is a constructor; its text is the JSON library's. `run` is modelled from where it has the
-- offer.
pub mod Delays
mod Runs
use any_kvm.Common.{
  ℕ, ◌*◌, Bool, true, false, ◌&&◌, Option, none, some, List, [], ◌∷◌, ◌++◌, ◌==◌, min,
  if◌then◌else◌,
}
use any_kvm.Common.Bytes.{Bytes, codes}

-- Whether two texts are the same.
abbrev pub same_text : Bytes → Bytes → Bool
same_text [] [] = true
same_text [] (c ∷ t) = false
same_text (b ∷ s) [] = false
same_text (b ∷ s) (c ∷ t) = b == c && same_text s t

-- What goes to the WebRTC session.
pub data Forward : Type 0 where
  answer : Bytes → Forward
  candidate : Bytes → Forward

-- What goes to the server.
pub data Outgoing : Type 0 where
  offer_message : Bytes → Outgoing
  candidate_message : Bytes → Outgoing
  pong : Bytes → Outgoing

-- What `tokio::select!` gives: a message that was read, or a local candidate, with whether its
-- write succeeds. `stream_end` is the end of the stream, `no_candidate` that of the channel.
pub data Arrival : Type 0 where
  stream_end : Arrival
  read_error : Arrival
  text : Bytes → Arrival
  ping : Bytes → Arrival
  close : Arrival
  other_message : Arrival
  local_candidate : Bytes → Bool → Arrival
  no_candidate : Arrival

-- `running` is no end of the code: nothing more arrived.
pub data SessionEnd : Type 0 where
  finished failed running : SessionEnd

pub record SessionResult : Type 0 where
  pub end : SessionEnd
  pub sent : List Outgoing
  pub forwarded : List Forward

abbrev pub after : List Outgoing → List Forward → SessionResult → SessionResult
after sent forwarded r = record r { sent = sent ++ r.sent; forwarded = forwarded ++ r.forwarded }

abbrev pub stop : SessionEnd → SessionResult
stop end = record { end = end; sent = []; forwarded = [] }

-- How one turn of the loop of `run` goes.
pub data Attempt : Type 0 where
  connect_failed : Attempt
  connected : Bool → List Arrival → Attempt

-- The `match result` after a connection, which has set the backoff to one second.
abbrev pub after_session : SessionEnd → List ℕ × Bool → List ℕ × Bool
after_session finished again = ([], true)
after_session running again = ([], false)
after_session failed again = (1 ∷ again.0, again.1)

module _ (Value : Type 0) (from_str : Bytes → Option (Bytes × Value))
    (get_str : Value → Bytes → Option Bytes) where
  -- An answer with its `sdp`, a candidate with its `candidate`; all else is only logged.
  unfoldable pub handle_message : Bytes → Value → List Forward
  handle_message msg_type payload =
      if same_text msg_type (codes "answer")
      then elim (get_str payload (codes "sdp")) [ some sdp ↦ answer sdp ∷ [] | none ↦ [] ]
      else if same_text msg_type (codes "candidate")
      then elim (get_str payload (codes "candidate")) [ some c ↦ candidate c ∷ [] | none ↦ [] ]
      else []

  unfoldable pub handle_incoming : Bytes → List Forward
  unfolding handle_message
  handle_incoming raw = elim (from_str raw) [
    | none ↦ []
    | some (msg_type, payload) ↦ handle_message msg_type payload
  ]

  -- The loop of `session`.
  unfoldable pub session_loop : List Arrival → SessionResult
  unfolding handle_incoming
  session_loop [] = stop running
  session_loop (stream_end ∷ rest) = stop finished
  session_loop (read_error ∷ rest) = stop failed
  session_loop (text raw ∷ rest) = after [] (handle_incoming raw) (session_loop rest)
  session_loop (ping payload ∷ rest) = after (pong payload ∷ []) [] (session_loop rest)
  session_loop (close ∷ rest) = stop finished
  session_loop (other_message ∷ rest) = session_loop rest
  session_loop (local_candidate c written ∷ rest) =
      let more = session_loop rest in
      if written then after (candidate_message c ∷ []) [] more else stop failed
  session_loop (no_candidate ∷ rest) = session_loop rest

  -- The offer is sent first.
  unfoldable pub session : Bytes → Bool → List Arrival → SessionResult
  unfolding session_loop
  session offer_sdp written arrivals =
      if written
      then after (offer_message offer_sdp ∷ []) [] (session_loop arrivals)
      else stop failed

  -- The sleeps between the turns, in seconds, and whether `run` returned. `backoff` is the time to
  -- sleep next.
  unfoldable pub run_loop : Bytes → ℕ → List Attempt → List ℕ × Bool
  unfolding session
  run_loop offer_sdp backoff [] = ([], false)
  run_loop offer_sdp backoff (connect_failed ∷ rest) =
      let more = run_loop offer_sdp (min (backoff * 2) 60) rest in (backoff ∷ more.0, more.1)
  run_loop offer_sdp backoff (connected written arrivals ∷ rest) =
      let again = run_loop offer_sdp (min (1 * 2) 60) rest in
      after_session (session offer_sdp written arrivals).end again

  unfoldable pub run : Bytes → List Attempt → List ℕ × Bool
  unfolding run_loop
  run offer_sdp attempts = run_loop offer_sdp 1 attempts
