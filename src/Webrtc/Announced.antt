-- ===== src/Webrtc/Announced.antt =====
-- `peer_connected`, which the bridges of agent/src/main.rs read, through all the rounds of `run` in
-- agent/src/webrtc.rs.
use any_kvm.Common.{
  ◌+◌, ◌≡◌, ◌≢◌, refl, sym, subst, ◌∙◌, Bool, true, false, List, [], ◌∷◌, ◌++◌, if◌then◌else◌,
}
use any_kvm.Stun.{SocketAddr}
use any_kvm.Webrtc.{Output, timeout, transmit, event, poll_error}
use any_kvm.Webrtc.Events.{handle_event, IsAnnounced, handle_event-IsAnnounced}
use any_kvm.Webrtc.Transport.{Accepts}
use any_kvm.Webrtc.Media.{Written, on_video, on_audio}
use any_kvm.Webrtc.Session.{
  Session, silent, join, go_on, left, dead, SessionOutcome, opened, opened_status, Env, poll, Round,
  prepare, media, receive, after_poll, pass, run_loop,
}
use any_kvm.Webrtc.Invariant.{receive-Kept, either, one_of}

-- A session that goes on is announced if it is connected; one that has been left is withdrawn.
abbrev pub Tells : SessionOutcome → Type 0
Tells o =
    (o.end ≢ left → IsAnnounced o.session.flags)
    × (o.end ≡ left → o.session.flags.peer_connected ≡ false)

poll-Tells :
    (env : Env) (outputs : List Output) (s : Session)
    → IsAnnounced s.flags
    → Tells (poll env outputs s)
unfolding poll
poll-Tells env [] s h = (λ n. h, λ e. cc)
poll-Tells env (timeout t ∷ rest) s h = (λ n. h, λ e. cc)
poll-Tells env (poll_error ∷ rest) s h = (λ n. h, λ e. cc)
poll-Tells env (transmit source destination contents ∷ rest) s h =
    poll-Tells env rest (record s { transmit_count = s.transmit_count + 1 }) h
poll-Tells env (event e ∷ rest) s h =
    let r = handle_event e s.flags in
    let s' = record (opened e s) { flags = r.flags } in
    let here = record silent {
      hid = r.hid;
      status = opened_status e env.channel_ready env.hid_status;
    } in
    let more = poll env rest s' in
    one_of Tells r.leave
      (record {
        end = left;
        session = record s' { flags = record r.flags { peer_connected = false } };
        trace = here;
      })
      (record more { trace = join here more.trace }) (λ l. (λ n. absurd (n refl), λ e. refl))
      (λ l. poll-Tells env rest s' ((handle_event-IsAnnounced e s.flags h).0 l))

differ : go_on ≢ left
differ e = cc

after_poll-Tells :
    (accepts : Accepts) (local_addrs : List SocketAddr) (r : Round) (o : SessionOutcome)
    (w : List Written)
    → Tells o
    → Tells (after_poll accepts local_addrs r o w)
unfolding after_poll
after_poll-Tells accepts local_addrs r o w h =
    let t = join (record silent { media = w }) o.trace in
    let on = receive accepts local_addrs r o.session t in
    let k = receive-Kept accepts local_addrs r o.session t in
    either Tells o.end on (record o { trace = t })
      (λ e. (
        λ n. subst (λ (s : Session). IsAnnounced s.flags) (sym k.0) (h.0 (λ l. differ (sym e ∙ l))),
        λ l. absurd (k.2 l),
      ))
      h

media-flags : (r : Round) (s : Session) → (media r s).0.flags ≡ s.flags
unfolding media
media-flags r s =
    either_way s.flags.ice_connected
      (let (counts, video) = on_video r.video_writer r.video s.counts in
        (record s { counts = counts }, video ++ on_audio r.audio_writer r.audio))
      (s, []) refl refl
  where
    either_way :
        (b : Bool) (x y : Session × List Written)
        → x.0.flags ≡ s.flags
        → y.0.flags ≡ s.flags
        → (if b then x else y).0.flags ≡ s.flags
    either_way true x y p q = p
    either_way false x y p q = q

pass-Tells :
    (accepts : Accepts) (local_addrs : List SocketAddr) (r : Round) (s : Session)
    → IsAnnounced s.flags
    → Tells (pass accepts local_addrs r s)
unfolding pass prepare
pass-Tells accepts local_addrs r s h =
    let (s', w) = media r (prepare r s) in
    one_of Tells r.alive (after_poll accepts local_addrs r (poll r.env r.outputs s') w)
      (record { end = dead; session = s; trace = silent })
      (λ e.
        after_poll-Tells accepts local_addrs r (poll r.env r.outputs s') w
          (poll-Tells r.env r.outputs s' (subst IsAnnounced (sym (media-flags r (prepare r s))) h)))
      (λ e. (λ n. h, λ l. cc))

-- At the end of any number of rounds, a connected session is announced to the bridges unless the
-- loop was left on a disconnection, and then the announcement is withdrawn.
pub run_loop-Tells :
    (accepts : Accepts) (local_addrs : List SocketAddr) (rounds : List Round) (s : Session)
    → IsAnnounced s.flags
    → let o = run_loop accepts local_addrs rounds s in
      (o.end ≢ left → IsAnnounced o.session.flags)
      × (o.end ≡ left → o.session.flags.peer_connected ≡ false)
unfolding run_loop
run_loop-Tells accepts local_addrs [] s h = (λ n. h, λ e. cc)
run_loop-Tells accepts local_addrs (r ∷ rounds) s h =
    let o = pass accepts local_addrs r s in
    let q = pass-Tells accepts local_addrs r s h in
    let more = run_loop accepts local_addrs rounds o.session in
    either Tells o.end (record more { trace = join o.trace more.trace }) o
      (λ e. run_loop-Tells accepts local_addrs rounds o.session (q.0 (λ l. differ (sym e ∙ l)))) q
