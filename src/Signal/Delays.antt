-- ===== src/Signal/Delays.antt =====
-- The reconnections of agent/src/signal_client.rs, and what a session passes on.
use any_kvm.Common.{
  ℕ, suc, ◌*◌, ◌^◌, ◌≡◌, refl, ap, Bool, true, false, Option, List, [], ◌∷◌, ◌++◌, arith, min,
}
use native.Mathlib.Nat.{pow-suc}
use any_kvm.Common.Bytes.{Bytes}
use any_kvm.Signal.{
  Forward, Outgoing, offer_message, candidate_message, pong, Arrival, stream_end, read_error, text,
  ping, close, other_message, local_candidate, no_candidate, SessionEnd, finished, failed, running,
  Attempt, connect_failed, connected, handle_incoming, session_loop, session, after_session,
  run_loop, run,
}

-- The sleep after a number of failures since the last connection: doubled each time, up to a minute.
abbrev pub delay_after : ℕ → ℕ
delay_after n = min (2 ^ n) 60

-- The arrivals that the session still takes.
abbrev pub before_end : List Arrival → List Arrival
before_end [] = []
before_end (stream_end ∷ rest) = []
before_end (read_error ∷ rest) = []
before_end (text raw ∷ rest) = text raw ∷ before_end rest
before_end (ping payload ∷ rest) = ping payload ∷ before_end rest
before_end (close ∷ rest) = []
before_end (other_message ∷ rest) = other_message ∷ before_end rest
before_end (local_candidate c true ∷ rest) = local_candidate c true ∷ before_end rest
before_end (local_candidate c false ∷ rest) = []
before_end (no_candidate ∷ rest) = no_candidate ∷ before_end rest

-- The texts that were read, and the answers to the server.
abbrev pub texts : List Arrival → List Bytes
texts [] = []
texts (text raw ∷ rest) = raw ∷ texts rest
texts (_ ∷ rest) = texts rest

abbrev pub replies : List Arrival → List Outgoing
replies [] = []
replies (ping payload ∷ rest) = pong payload ∷ replies rest
replies (local_candidate c written ∷ rest) = candidate_message c ∷ replies rest
replies (_ ∷ rest) = replies rest

abbrev pub flat_map : (Bytes → List Forward) → List Bytes → List Forward
flat_map f [] = []
flat_map f (x ∷ xs) = f x ++ flat_map f xs

-- Only a failed session is followed by another attempt.
abbrev pub if_failed : SessionEnd → List ℕ → List ℕ
if_failed finished again = []
if_failed running again = []
if_failed failed again = again

after_session-if_failed :
    (e : SessionEnd) (again : List ℕ × Bool) (rest : List ℕ)
    → again.0 ≡ rest
    → (after_session e again).0 ≡ if_failed e (1 ∷ rest)
after_session-if_failed finished again rest h = refl
after_session-if_failed running again rest h = refl
after_session-if_failed failed again rest h = ap (λ (t : List ℕ). 1 ∷ t) h

doubled : (n : ℕ) → min (delay_after n * 2) 60 ≡ delay_after (suc n)
doubled n = omega (arith, pow-suc 2 n)

module _ (Value : Type 0) (from_str : Bytes → Option (Bytes × Value))
    (get_str : Value → Bytes → Option Bytes) where
  -- The sleeps of a run that has had `n` failures since the last connection.
  abbrev pub delays : Bytes → ℕ → List Attempt → List ℕ
  delays offer_sdp n [] = []
  delays offer_sdp n (connect_failed ∷ rest) = delay_after n ∷ delays offer_sdp (suc n) rest
  delays offer_sdp n (connected written arrivals ∷ rest) =
      if_failed (session Value from_str get_str offer_sdp written arrivals).end
        (delay_after 0 ∷ delays offer_sdp 1 rest)

  run_loop-delays :
      (offer_sdp : Bytes) (n : ℕ) (attempts : List Attempt)
      → (run_loop Value from_str get_str offer_sdp (delay_after n) attempts).0
        ≡ delays offer_sdp n attempts
  unfolding run_loop
  run_loop-delays offer_sdp n [] = refl
  run_loop-delays offer_sdp n (connect_failed ∷ rest) =
      rw (doubled n)
        (ap (λ (t : List ℕ). delay_after n ∷ t) (run_loop-delays offer_sdp (suc n) rest))
  run_loop-delays offer_sdp n (connected written arrivals ∷ rest) =
      after_session-if_failed (session Value from_str get_str offer_sdp written arrivals).end _ _
        (run_loop-delays offer_sdp 1 rest)

  -- The client sleeps one second after the first failure, and twice as long after each further
  -- failure to connect, up to a minute; a connection starts this again. It makes no further attempt
  -- after a session that ended normally.
  pub run-delays :
      (offer_sdp : Bytes) (attempts : List Attempt)
      → (run Value from_str get_str offer_sdp attempts).0 ≡ delays offer_sdp 0 attempts
  unfolding run
  run-delays offer_sdp attempts = run_loop-delays offer_sdp 0 attempts

  loop-trace :
      (arrivals : List Arrival)
      → let r = session_loop Value from_str get_str arrivals in
        (r.forwarded
          ≡ flat_map (handle_incoming Value from_str get_str) (texts (before_end arrivals)))
        × (r.sent ≡ replies (before_end arrivals))
  unfolding session_loop
  loop-trace [] = (refl, refl)
  loop-trace (stream_end ∷ rest) = (refl, refl)
  loop-trace (read_error ∷ rest) = (refl, refl)
  loop-trace (text raw ∷ rest) =
      let ih = loop-trace rest in
      (ap (λ (t : List Forward). handle_incoming Value from_str get_str raw ++ t) ih.0, ih.1)
  loop-trace (ping payload ∷ rest) =
      let ih = loop-trace rest in (ih.0, ap (λ (t : List Outgoing). pong payload ∷ t) ih.1)
  loop-trace (close ∷ rest) = (refl, refl)
  loop-trace (other_message ∷ rest) = loop-trace rest
  loop-trace (local_candidate c true ∷ rest) =
      let ih = loop-trace rest in (ih.0, ap (λ (t : List Outgoing). candidate_message c ∷ t) ih.1)
  loop-trace (local_candidate c false ∷ rest) = (refl, refl)
  loop-trace (no_candidate ∷ rest) = loop-trace rest

  -- What a session does up to its end: every text is passed on as `handle_incoming` reads it, in the
  -- order of arrival, and the server gets the offer first and then, in order, a candidate message
  -- for each local candidate and a pong for each ping.
  pub session-trace :
      (offer_sdp : Bytes) (arrivals : List Arrival)
      → let r = session Value from_str get_str offer_sdp true arrivals in
        (r.forwarded
          ≡ flat_map (handle_incoming Value from_str get_str) (texts (before_end arrivals)))
        × (r.sent ≡ offer_message offer_sdp ∷ replies (before_end arrivals))
  unfolding session
  session-trace offer_sdp arrivals =
      let h = loop-trace arrivals in
      (h.0, ap (λ (t : List Outgoing). offer_message offer_sdp ∷ t) h.1)
