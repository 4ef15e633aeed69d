-- ===== src/Agent/Sessions.antt =====
-- The loop of `main` in agent/src/main.rs over the sessions of agent/src/webrtc.rs. A `Connection` is
-- what one pass of the loop meets. An aborted session has the rounds that it came to before
-- `peer_connected` is set to false, and those after.
use any_kvm.Common.{
  ℕ, ◌≡◌, ◌≢◌, refl, false, Option, none, some, List, [], ◌∷◌, map, arith, All, ◌⊎◌, inl, inr,
}
use any_kvm.Common.Outcome.{Outcome, ok, err, panicked, out_of_fuel, Returns}
use any_kvm.Stun.{SocketAddr, StunError}
use any_kvm.Webrtc.{Flags}
use any_kvm.Webrtc.Gather.{Gathered}
use any_kvm.Webrtc.Offer.{
  new_session, Sdp, StartError, exchange, exchange-Returns, after_exchange, run,
}
use any_kvm.Webrtc.Session.{Round, Session, SessionOutcome, run_loop}
use any_kvm.Webrtc.Transport.{Accepts}
use any_kvm.Agent.{
  next_delay, delays, SessionEnd, webrtc_ended, signal_ended, ctrl_c, after_session,
}
use any_kvm.Agent.Reconnect.{InRange, next_delay-InRange}

pub record Connection : Type 0 where
  pub gathered : Outcome StunError Gathered
  pub sdp : Sdp
  pub accepts : Accepts
  pub local_addrs : List SocketAddr
  pub rounds : List Round
  pub now : ℕ
  pub late : List Round
  pub ends : SessionEnd
  pub elapsed : ℕ

abbrev pub flags_of : Option SessionOutcome → Option Flags
flags_of none = none
flags_of (some o) = some o.session.flags

-- What happens to the flags after `peer_connected.store(false)`, given the exchange of the session.
-- A session that ended of its own accord is over then. One that was aborted stops only when it next
-- waits, since `abort()` does not wait for it: `late` are the rounds that it still makes.
abbrev pub late_flags :
    Outcome StartError Gathered
    → Accepts
    → List SocketAddr
    → (late : List Round) → SessionEnd
    → Session
    → Option Flags
late_flags exchanged accepts local_addrs late webrtc_ended s = some s.flags
late_flags exchanged accepts local_addrs late ctrl_c s = none
late_flags exchanged accepts local_addrs late signal_ended s =
    flags_of (after_exchange exchanged accepts local_addrs late s)

-- The flags after a session that went on to its end or to its abortion.
abbrev pub after_run :
    Outcome StartError Gathered
    → Accepts
    → List SocketAddr
    → (late : List Round) → SessionEnd
    → Option SessionOutcome
    → Option Flags
after_run exchanged accepts local_addrs late ends none = none
after_run exchanged accepts local_addrs late ends (some o) =
    elim (after_session ends o.session.flags) [
      | none ↦ none
      | some flags ↦
          late_flags exchanged accepts local_addrs late ends (record o.session { flags = flags })
    ]

-- The flags when the `select!` is over and its tasks have stopped; `none` ends the agent, by Ctrl-C
-- or by a panic.
unfoldable pub connect : Connection → Flags → Option Flags
unfolding run exchange after_session
connect c flags =
    after_run (exchange c.gathered c.sdp) c.accepts c.local_addrs c.late c.ends
      (run c.gathered c.sdp c.accepts c.local_addrs c.rounds c.now flags)

-- A sleep between two sessions: its length, and the flags during it.
pub record Sleep : Type 0 where
  pub length : ℕ
  pub flags : Flags

unfoldable pub main_loop : ℕ → Flags → List Connection → List Sleep
unfolding connect next_delay
main_loop delay flags [] = []
main_loop delay flags (c ∷ connections) =
    let delay' = next_delay c.elapsed delay in
    elim (connect c flags) [
      | none ↦ []
      | some flags' ↦
          record { length = delay'; flags = flags' } ∷ main_loop delay' flags' connections
    ]

-- The sessions that are not ended by Ctrl-C, up to the first that is.
abbrev pub before_ctrl_c : List Connection → List ℕ
before_ctrl_c [] = []
before_ctrl_c (c ∷ connections) = elim c.ends [
  | webrtc_ended ↦ c.elapsed ∷ before_ctrl_c connections
  | signal_ended ↦ c.elapsed ∷ before_ctrl_c connections
  | ctrl_c ↦ []
]

-- No browser, and a length in the range.
abbrev pub IsQuiet : Sleep → Type 0
IsQuiet s = (s.flags.peer_connected ≡ false) × InRange s.length

ends-cases : (e : SessionEnd) → (e ≡ webrtc_ended) ⊎ ((e ≡ signal_ended) ⊎ (e ≡ ctrl_c))
ends-cases webrtc_ended = inl refl
ends-cases signal_ended = inr (inl refl)
ends-cases ctrl_c = inr (inr refl)

-- Gathering does not panic, and an aborted session makes no round after its abortion.
abbrev pub IsOrderly : Connection → Type 0
IsOrderly c = Returns c.gathered × (c.late ≡ [])

-- A session of an exchange that returns, with no late round.
after_run-quiet :
    (o : Outcome StartError Gathered) (accepts : Accepts) (local_addrs : List SocketAddr)
    (rounds : List Round) (end : SessionEnd) (s : Session)
    → Returns o
    → let after =
        after_run o accepts local_addrs [] end (after_exchange o accepts local_addrs rounds s) in
      ((end ≡ ctrl_c) × (after ≡ none))
      ⊎ ((end ≢ ctrl_c) × ((flags : Flags) × (after ≡ some flags) × (flags.peer_connected ≡ false)))
unfolding after_session run_loop
after_run-quiet (ok g) accepts local_addrs rounds ctrl_c s r = inl (refl, refl)
after_run-quiet (ok g) accepts local_addrs rounds webrtc_ended s r = inr (λ e. cc, (_, refl, refl))
after_run-quiet (ok g) accepts local_addrs rounds signal_ended s r = inr (λ e. cc, (_, refl, refl))
after_run-quiet (err x) accepts local_addrs rounds ctrl_c s r = inl (refl, refl)
after_run-quiet (err x) accepts local_addrs rounds webrtc_ended s r = inr (λ e. cc, (_, refl, refl))
after_run-quiet (err x) accepts local_addrs rounds signal_ended s r = inr (λ e. cc, (_, refl, refl))
after_run-quiet panicked accepts local_addrs rounds end s r = absurd r
after_run-quiet out_of_fuel accepts local_addrs rounds end s r = absurd r

connect-quiet :
    (c : Connection) (flags : Flags)
    → IsOrderly c
    → ((c.ends ≡ ctrl_c) × (connect c flags ≡ none))
      ⊎ ((c.ends ≢ ctrl_c)
          × ((flags' : Flags) × (connect c flags ≡ some flags') × (flags'.peer_connected ≡ false)))
unfolding connect run
connect-quiet c flags h =
    let returns =
      exchange-Returns c.gathered c.sdp.applied c.sdp.answer c.sdp.offer_taken c.sdp.parses
        c.sdp.accepts h.0 in
    simp (h.1) (
      after_run-quiet (exchange c.gathered c.sdp) c.accepts c.local_addrs c.rounds c.ends
        (new_session c.now flags) returns)

-- The agent waits without a browser: over any sessions whose gathering does not panic and that make
-- no round after they are aborted, up to the first Ctrl-C, the sleeps between them are those of
-- `delays` for their lengths, each lies between three and thirty seconds if the first delay does,
-- and in each `peer_connected` is false.
pub main_loop-IsQuiet :
    (delay : ℕ) (flags : Flags) (connections : List Connection)
    → InRange delay
    → All IsOrderly connections
    → (map (λ s. s.length) (main_loop delay flags connections)
        ≡ delays delay (before_ctrl_c connections))
      × All IsQuiet (main_loop delay flags connections)
unfolding main_loop delays
main_loop-IsQuiet delay flags [] h o = (refl, tt)
main_loop-IsQuiet delay flags (c ∷ connections) h o =
    let k = next_delay-InRange c.elapsed delay h in
    elim (connect-quiet c flags o.0) [
      | inl e ↦ ground (arith, e)
      | inr (n, quiet) ↦
          let (flags', e, q) = quiet in
          let ih = main_loop-IsQuiet (next_delay c.elapsed delay) flags' connections k o.1 in
          elim (ends-cases c.ends) [
            | inl w ↦ ground (arith, e, w, q, k, ih)
            | inr (inl w) ↦ ground (arith, e, w, q, k, ih)
            | inr (inr w) ↦ absurd (n w)
          ]
    ]
