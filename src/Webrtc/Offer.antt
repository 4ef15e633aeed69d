-- ===== src/Webrtc/Offer.antt =====
-- agent/src/webrtc.rs: the exchange of the offer and the answer, and `run` from its start to its end.
use any_kvm.Common.{
  ℕ, ◌+◌, ◌≡◌, ◌≢◌, refl, arith, Bool, true, false, Option, none, some, List, [], ◌∷◌,
}
use any_kvm.Common.Bytes.{Bytes}
use any_kvm.Common.Outcome.{Outcome, ok, err, panicked, out_of_fuel, ◌>>=◌, guard, Returns}
use any_kvm.Stun.{SocketAddr, StunError}
use any_kvm.Webrtc.Gather.{Gathered}
use any_kvm.Webrtc.{Flags}
use any_kvm.Webrtc.Transport.{Accepts}
use any_kvm.Webrtc.Session.{Session, SessionOutcome, Round, failed, silent, run_loop}

pub data StartError : Type 0 where
  gather_failed no_media_changes offer_channel_closed answer_channel_closed bad_answer : StartError
  answer_refused : StartError

-- What str0m and the channels give: the offer that `change.apply()` makes, whether the signalling
-- client still takes it, the answer that arrives, and what str0m says to it.
pub record Sdp : Type 0 where
  pub applied : Option Bytes
  pub offer_taken : Bool
  pub answer : Option Bytes
  pub parses : Bytes → Bool
  pub accepts : Bytes → Bool

abbrev pub or_error : {A : Type 0} → Option A → StartError → Outcome StartError A
or_error none e = err e
or_error (some a) e = ok a

-- `build_full_offer`
abbrev pub build_full_offer : Sdp → Outcome StartError Bytes
build_full_offer sdp = or_error sdp.applied no_media_changes

-- Binding the socket and gathering the candidates, as the rest of `run` sees it.
abbrev pub started : Outcome StunError Gathered → Outcome StartError Gathered
started (ok g) = ok g
started (err e) = err gather_failed
started panicked = panicked
started out_of_fuel = out_of_fuel

-- From the candidates to the answer that is accepted.
unfoldable pub exchange : Outcome StunError Gathered → Sdp → Outcome StartError Gathered
exchange gathered sdp = do
  g ← started gathered
  offer ← build_full_offer sdp
  u ← guard sdp.offer_taken offer_channel_closed
  answer ← or_error sdp.answer answer_channel_closed
  v ← guard (sdp.parses answer) bad_answer
  w ← guard (sdp.accepts answer) answer_refused
  ok g

-- The variables before the loop; `now` and the 240 seconds are in the unit of the clock.
abbrev pub new_session : ℕ → Flags → Session
new_session now flags = record {
  flags = record flags { ice_connected = false };
  turn_perms = [];
  turn_refresh_at = now + 240;
  counts = record { video_frame_count = 0; video_write_count = 0; video_drop_count = 0 };
  transmit_count = 0;
  dc_channel_id = none;
}

-- The rounds of the loop, with the relay that was gathered.
abbrev pub with_relay : Gathered → List Round → List Round
with_relay g [] = []
with_relay g (r ∷ rounds) =
    record r { env = record r.env { relay = g.relay } } ∷ with_relay g rounds

abbrev pub stopped : Session → SessionOutcome
stopped s = record { end = failed; session = s; trace = silent }

-- What the rest of `run` does after the exchange. `none` is a panic, which ends the agent: the
-- release profile of agent/Cargo.toml aborts on one. Gathering has no fuel to run out of.
abbrev pub after_exchange :
    Outcome StartError Gathered
    → Accepts
    → List SocketAddr
    → List Round
    → Session
    → Option SessionOutcome
after_exchange (ok g) accepts local_addrs rounds s =
    some (run_loop accepts local_addrs (with_relay g rounds) s)
after_exchange (err e) accepts local_addrs rounds s = some (stopped s)
after_exchange panicked accepts local_addrs rounds s = none
after_exchange out_of_fuel accepts local_addrs rounds s = none

unfoldable pub run :
    Outcome StunError Gathered
    → Sdp
    → Accepts
    → List SocketAddr
    → List Round
    → ℕ
    → Flags
    → Option SessionOutcome
unfolding exchange
run gathered sdp accepts local_addrs rounds now flags =
    after_exchange (exchange gathered sdp) accepts local_addrs rounds (new_session now flags)

-- An answer that str0m has accepted.
abbrev pub IsAnswered : Sdp → Type 0
IsAnswered sdp =
    (sdp.applied ≢ none)
    × (sdp.offer_taken ≡ true)
    × ((answer : Bytes) × (sdp.answer ≡ some answer)
        × (sdp.parses answer ≡ true)
        × (sdp.accepts answer ≡ true))

exchanged :
    (gathered : Outcome StunError Gathered) (applied answer : Option Bytes) (taken : Bool)
    (parses accepts : Bytes → Bool) (g : Gathered)
    → exchange gathered (record {
      applied = applied;
      offer_taken = taken;
      answer = answer;
      parses = parses;
      accepts = accepts;
    })
      ≡ ok g
    → (applied ≢ none)
      × (taken ≡ true)
      × ((a : Bytes) × (answer ≡ some a) × (parses a ≡ true) × (accepts a ≡ true))
unfolding exchange
exchanged (ok g') (some o) (some a) true parses accepts g e =
    (λ h. cc, refl, (a, refl, ground (arith, e), ground (arith, e)))
exchanged (ok g') (some o) none true parses accepts g e = absurd (cc)
exchanged (ok g') (some o) answer false parses accepts g e = absurd (cc)
exchanged (ok g') none answer taken parses accepts g e = absurd (cc)
exchanged (err x) applied answer taken parses accepts g e = absurd (cc)
exchanged panicked applied answer taken parses accepts g e = absurd (cc)
exchanged out_of_fuel applied answer taken parses accepts g e = absurd (cc)

-- The exchange panics only where gathering does.
pub exchange-Returns :
    (gathered : Outcome StunError Gathered) (applied answer : Option Bytes) (taken : Bool)
    (parses accepts : Bytes → Bool)
    → Returns gathered
    → Returns (
        exchange gathered (record {
          applied = applied;
          offer_taken = taken;
          answer = answer;
          parses = parses;
          accepts = accepts;
        }))
unfolding exchange
exchange-Returns (ok g) (some o) (some a) true parses accepts h = ground arith
exchange-Returns (ok g) (some o) none true parses accepts h = tt
exchange-Returns (ok g) (some o) answer false parses accepts h = tt
exchange-Returns (ok g) none answer taken parses accepts h = tt
exchange-Returns (err e) applied answer taken parses accepts h = tt
exchange-Returns panicked applied answer taken parses accepts h = absurd h
exchange-Returns out_of_fuel applied answer taken parses accepts h = absurd h

stops :
    (o : Outcome StartError Gathered) (accepts : Accepts) (local_addrs : List SocketAddr)
    (rounds : List Round) (s : Session)
    → Returns o
    → ((g : Gathered) → o ≢ ok g)
    → after_exchange o accepts local_addrs rounds s ≡ some (stopped s)
stops (ok g) accepts local_addrs rounds s r n = absurd (n g refl)
stops (err e) accepts local_addrs rounds s r n = refl
stops panicked accepts local_addrs rounds s r n = absurd r
stops out_of_fuel accepts local_addrs rounds s r n = absurd r

-- Without an answer there is no session: if gathering does not panic, then unless an offer was made
-- and taken, and an answer to it arrived that str0m reads and accepts, `run` ends by an error before
-- its loop, with the flags that the rest of the agent reads as they were: no media, no control frame
-- and no status has been passed on and str0m was given no input, whatever would have come.
pub run_unanswered :
    (gathered : Outcome StunError Gathered) (sdp : Sdp) (accepts : Accepts)
    (local_addrs : List SocketAddr) (rounds : List Round) (now : ℕ) (flags : Flags)
    → Returns gathered
    → (IsAnswered sdp → ⊥)
    → run gathered sdp accepts local_addrs rounds now flags ≡ some (stopped (new_session now flags))
unfolding run
run_unanswered gathered sdp accepts local_addrs rounds now flags r n =
    stops (exchange gathered sdp) accepts local_addrs rounds (new_session now flags)
      (exchange-Returns gathered sdp.applied sdp.answer sdp.offer_taken sdp.parses sdp.accepts r)
      (λ g e.
        n (exchanged gathered sdp.applied sdp.answer sdp.offer_taken sdp.parses sdp.accepts g e))
