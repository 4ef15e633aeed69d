-- ===== src/Webrtc/Invariant.antt =====
-- The connection and the media through all the rounds of `run` in agent/src/webrtc.rs.
use any_kvm.Common.{
  ◌+◌, ◌≡◌, ◌≢◌, refl, sym, subst, ap, ap₂, ◌∙◌, Bool, true, false, Option, none, some, List, [],
  ◌∷◌, ◌++◌, arith, append-nil, if◌then◌else◌, All, Option-cases, inl, inr,
}
use any_kvm.Common.Outcome.{Outcome, ok, err, panicked, out_of_fuel}
use any_kvm.Stun.{SocketAddr, StunError}
use any_kvm.Webrtc.{
  Event, established, channel_open, channel_data, ice_state_change, keyframe_request, other_event,
  Output, timeout, transmit, event, poll_error, Flags,
}
use any_kvm.Webrtc.Events.{handle_event}
use any_kvm.Webrtc.Transport.{Input, Accepts, on_datagram}
use any_kvm.Webrtc.Media.{Written, on_video, on_audio}
use any_kvm.Webrtc.Session.{
  Session, Trace, silent, End, go_on, left, dead, failed, SessionOutcome, opened, Env, poll, Round,
  prepare, media, take_input, receive, after_poll, pass, run_loop, join, proceed,
}

-- Among the outputs there is no `Event::Connected`.
abbrev pub NeverConnected : List Output → Type 0
NeverConnected [] = Unit
NeverConnected (timeout t ∷ rest) = NeverConnected rest
NeverConnected (transmit source destination contents ∷ rest) = NeverConnected rest
NeverConnected (poll_error ∷ rest) = NeverConnected rest
NeverConnected (event e ∷ rest) = (e ≢ established) × NeverConnected rest

-- Not connected, and no media sent.
abbrev IsQuiet : SessionOutcome → Type 0
IsQuiet o = (o.session.flags.ice_connected ≡ false) × (o.trace.media ≡ [])

unconnected :
    (e : Event) (s : Flags)
    → s.ice_connected ≡ false
    → e ≢ established
    → ((handle_event e s).flags.ice_connected ≡ false) × ((handle_event e s).leave ≡ false)
unfolding handle_event
unconnected established s h ne = absurd (ne refl)
unconnected (channel_open id) s h ne = ground arith
unconnected (channel_data bytes) s h ne = ground arith
unconnected (ice_state_change state) s h ne = ground arith
unconnected keyframe_request s h ne = ground arith
unconnected other_event s h ne = ground arith

poll-IsQuiet :
    (env : Env) (outputs : List Output) (s : Session)
    → s.flags.ice_connected ≡ false
    → NeverConnected outputs
    → IsQuiet (poll env outputs s)
unfolding poll
poll-IsQuiet env [] s h n = (h, refl)
poll-IsQuiet env (timeout t ∷ rest) s h n = (h, refl)
poll-IsQuiet env (poll_error ∷ rest) s h n = (h, refl)
poll-IsQuiet env (transmit source destination contents ∷ rest) s h n =
    poll-IsQuiet env rest (record s { transmit_count = s.transmit_count + 1 }) h n
poll-IsQuiet env (event e ∷ rest) s h n =
    let (still, stays) = unconnected e s.flags h n.0 in
    let ih =
      poll-IsQuiet env rest (record (opened e s) { flags = (handle_event e s.flags).flags }) still
        n.1 in
    rw stays ih

-- Receiving changes neither the session nor the media sent, and does not leave the loop.
abbrev pub Kept : Session → Trace → SessionOutcome → Type 0
Kept s t o = (o.session ≡ s) × (o.trace.media ≡ t.media) × (o.end ≢ left)

take_input-Kept :
    (m : Outcome StunError (Option Input)) (fine : Bool) (s : Session) (t : Trace)
    → Kept s t (take_input m fine s t)
unfolding take_input
take_input-Kept (ok none) fine s t = (refl, refl, λ e. cc)
take_input-Kept (ok (some i)) true s t = (refl, append-nil t.media, λ e. cc)
take_input-Kept (ok (some i)) false s t = (refl, append-nil t.media, λ e. cc)
take_input-Kept (err e) fine s t = (refl, refl, λ e. cc)
take_input-Kept panicked fine s t = (refl, refl, λ e. cc)
take_input-Kept out_of_fuel fine s t = (refl, refl, λ e. cc)

pub receive-Kept :
    (accepts : Accepts) (local_addrs : List SocketAddr) (r : Round) (s : Session) (t : Trace)
    → Kept s t (receive accepts local_addrs r s t)
unfolding receive
receive-Kept accepts local_addrs r s t = elim (Option-cases r.incoming) [
  | inl e ↦ rw e (slept r.input_ok)
  | inr ((sender, bytes), e) ↦
      rw e
        (take_input-Kept (on_datagram accepts r.env.relay local_addrs sender bytes) r.input_ok s t)
]
  where
    slept :
        (b : Bool) → Kept s t (record { end = if b then go_on else failed; session = s; trace = t })
    slept true = (refl, refl, λ e. cc)
    slept false = (refl, refl, λ e. cc)

-- A round in which str0m does not report that the connection is up.
abbrev pub Unestablished : Round → Type 0
Unestablished r = NeverConnected r.outputs

-- What holds of both outcomes holds of the one that counts.
pub either {ℓ} :
    (P : SessionOutcome → Type ℓ) (e : End) (further stopped : SessionOutcome)
    → (e ≡ go_on → P further)
    → P stopped
    → P (proceed e further stopped)
either P go_on further stopped f s = f refl
either P left further stopped f s = s
either P dead further stopped f s = s
either P failed further stopped f s = s

after_poll-IsQuiet :
    (accepts : Accepts) (local_addrs : List SocketAddr) (r : Round) (o : SessionOutcome)
    → IsQuiet o
    → IsQuiet (after_poll accepts local_addrs r o [])
unfolding after_poll
after_poll-IsQuiet accepts local_addrs r o (h, m) =
    let t = join silent o.trace in
    let k = receive-Kept accepts local_addrs r o.session t in
    either IsQuiet o.end (receive accepts local_addrs r o.session t) (record o { trace = t })
      (λ e. (ap (λ (s : Session). s.flags.ice_connected) k.0 ∙ h, k.1 ∙ m)) (h, m)

-- An unconnected session writes no media.
media_unconnected : (r : Round) (s : Session) → s.flags.ice_connected ≡ false → media r s ≡ (s, [])
unfolding media
media_unconnected r s h =
    ap
      (λ (b : Bool).
        if b
        then (let (counts, video) = on_video r.video_writer r.video s.counts in
            (record s { counts = counts }, video ++ on_audio r.audio_writer r.audio))
        else (s, []))
      h

-- What holds of both outcomes of a test holds of the test.
pub one_of {ℓ} :
    (P : SessionOutcome → Type ℓ) (b : Bool) (x y : SessionOutcome)
    → (b ≡ true → P x)
    → (b ≡ false → P y)
    → P (if b then x else y)
one_of P true x y p q = p refl
one_of P false x y p q = q refl

pass-IsQuiet :
    (accepts : Accepts) (local_addrs : List SocketAddr) (r : Round) (s : Session)
    → s.flags.ice_connected ≡ false
    → Unestablished r
    → IsQuiet (pass accepts local_addrs r s)
unfolding pass prepare
pass-IsQuiet accepts local_addrs r s h n =
    let run = λ (p : Session × List Written).
      after_poll accepts local_addrs r (poll r.env r.outputs p.0) p.1 in
    one_of IsQuiet r.alive (run (media r (prepare r s)))
      (record { end = dead; session = s; trace = silent })
      (λ e.
        subst (λ (p : Session × List Written). IsQuiet (run p))
          (sym (media_unconnected r (prepare r s) h))
          (after_poll-IsQuiet accepts local_addrs r (poll r.env r.outputs (prepare r s))
            (poll-IsQuiet r.env r.outputs (prepare r s) h n)))
      (λ e. (h, refl))

-- Without `Event::Connected` no media is ever sent: through any number of rounds, a session that
-- starts unconnected stays so and writes no sample, whatever the channels hold.
pub run_loop-media :
    (accepts : Accepts) (local_addrs : List SocketAddr) (rounds : List Round) (s : Session)
    → s.flags.ice_connected ≡ false
    → All Unestablished rounds
    → let o = run_loop accepts local_addrs rounds s in
      (o.session.flags.ice_connected ≡ false) × (o.trace.media ≡ [])
unfolding run_loop
run_loop-media accepts local_addrs [] s h n = (h, refl)
run_loop-media accepts local_addrs (r ∷ rounds) s h n =
    let o = pass accepts local_addrs r s in
    let q = pass-IsQuiet accepts local_addrs r s h n.0 in
    let more = run_loop accepts local_addrs rounds o.session in
    let ih = run_loop-media accepts local_addrs rounds o.session q.0 n.1 in
    either IsQuiet o.end (record more { trace = join o.trace more.trace }) o
      (λ e. (ih.0, ap₂ ◌++◌ q.1 ih.1)) q
