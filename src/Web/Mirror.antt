-- ===== src/Web/Mirror.antt =====
-- web/app.js and agent/src/hid.rs: the browser's keys and buttons, and the agent's.
use Prim.Native.String.{String}
use any_kvm.Common.{
  ◌%◌, ◌≡◌, refl, sym, ap, subst, ◌∙◌, Bool, true, false, List, [], ◌∷◌, ◌++◌, arith, append_assoc,
  if◌then◌else◌,
}
use any_kvm.Common.Bytes.{Bytes}
use any_kvm.Common.Int.{ℤ}
use any_kvm.Common.Outcome.{
  ok, err, panicked, out_of_fuel, ◌>>=◌, at, Succeeds, Succeeds-bind, Succeeds-mono,
}
use any_kvm.Hid.{Effect, keyboard_write, mouse_write, serial_write, send_control}
use any_kvm.Hid.Gadget.{Gadget, step, run_gadget, Step}
use any_kvm.Web.{
  Page, six, uint8_array, send_keyboard, send_mouse_move, send_mouse_buttons, send_mouse_wheel,
  press, lift, release, minus_sign, Event, key_down, key_up, mouse_move, mouse_down, mouse_up,
  wheel, click, escape, captured, on_event, on_events,
}

-- The keyboard's last report: the machine's view of the keys.
abbrev pub keyboard_after : Bytes → List Effect → Bytes
keyboard_after d [] = d
keyboard_after d (keyboard_write r ∷ es) = keyboard_after r es
keyboard_after d (mouse_write r ∷ es) = keyboard_after d es
keyboard_after d (serial_write r ∷ es) = keyboard_after d es
keyboard_after d (send_control c ∷ es) = keyboard_after d es

keyboard_after-append :
    (d : Bytes) (xs ys : List Effect)
    → keyboard_after d (xs ++ ys) ≡ keyboard_after (keyboard_after d xs) ys
keyboard_after-append d [] ys = refl
keyboard_after-append d (keyboard_write r ∷ es) ys = keyboard_after-append r es ys
keyboard_after-append d (mouse_write r ∷ es) ys = keyboard_after-append d es ys
keyboard_after-append d (serial_write r ∷ es) ys = keyboard_after-append d es ys
keyboard_after-append d (send_control c ∷ es) ys = keyboard_after-append d es ys

-- The boot keyboard report of the page's keys: modifiers, a zero, and the first six keys.
abbrev pub keys_report : Page → Bytes
keys_report p = uint8_array (p.modifier ∷ 0 ∷ six 6 p.keys)

-- The agent has the page's buttons, and its keyboard's last report is that of the page's keys.
pub record Mirrors (p : Page) (g : Gadget) (held : Bytes) : Type 0 where
  pub kbd : g.kbd ≡ true
  pub buttons : g.last_buttons ≡ p.buttons % 256
  pub keys : held ≡ keys_report p

-- Frames one after the other.
after_ok :
    (out : List Effect) (P : Gadget × List Effect → Type 0) (m : Step)
    → Succeeds (do (g, more) ← m; ok (g, out ++ more)) P
    → Succeeds m (λ t. P (t.0, out ++ t.1))
after_ok out P (ok t) h = h
after_ok out P (err e) h = h
after_ok out P panicked h = h
after_ok out P out_of_fuel h = h

run_after :
    (P Q : Gadget × List Effect → Type 0) (o : Step) (xs ys zs : List Bytes)
    → ((g : Gadget) (out : List Effect)
        → Succeeds (run_gadget g xs) (λ t. P (t.0, out ++ t.1))
        → Succeeds (run_gadget g zs) (λ t. Q (t.0, out ++ t.1)))
    → Succeeds (do (g, out) ← o; (r, more) ← run_gadget g xs; ok (r, out ++ more)) P
    → Succeeds (do (g, out) ← o; (r, more) ← run_gadget g zs; ok (r, out ++ more)) Q
run_after P Q (ok (g, out)) xs ys zs k h =
    Succeeds-bind (λ t. Q (t.0, out ++ t.1)) Q (run_gadget g zs) _
      (k g out (after_ok out P (run_gadget g xs) h)) (λ t q. q)
run_after P Q (err e) xs ys zs k h = h
run_after P Q panicked xs ys zs k h = h
run_after P Q out_of_fuel xs ys zs k h = h

run_gadget-append :
    (P Q : Gadget × List Effect → Type 0) (g : Gadget) (xs ys : List Bytes)
    → Succeeds (run_gadget g xs) P
    → ((r : Gadget × List Effect) → P r → Succeeds (run_gadget r.0 ys) (λ t. Q (t.0, r.1 ++ t.1)))
    → Succeeds (run_gadget g (xs ++ ys)) Q
unfolding run_gadget
run_gadget-append P Q g [] ys h k = k (g, []) h
run_gadget-append P Q g (f ∷ xs) ys h k =
    run_after P Q (step g f) xs ys (xs ++ ys)
      (λ g' out h'.
        run_gadget-append (λ t. P (t.0, out ++ t.1)) (λ t. Q (t.0, out ++ t.1)) g' xs ys h'
          (λ r p.
            Succeeds-mono (λ t. Q (t.0, (out ++ r.1) ++ t.1)) (λ t. Q (t.0, out ++ (r.1 ++ t.1)))
              (run_gadget r.0 ys) (λ t q. subst (λ es. Q (t.0, es)) (append_assoc out r.1 t.1) q)
              (k (r.0, out ++ r.1) p)))
      h

-- What a frame does to the view.
abbrev Shows : Page → Gadget → Bytes → List Bytes → Type 0
Shows q g d frames = Succeeds (run_gadget g frames) (λ r. Mirrors q r.0 (keyboard_after d r.1))

module _ (q : Page) (g : Gadget) (d : Bytes) (kbd : g.kbd ≡ true) (dc : q.dc_open ≡ true) where
  keyboard-Shows : g.last_buttons ≡ q.buttons % 256 → Shows q g d (send_keyboard q)
  unfolding send_keyboard run_gadget step at
  keyboard-Shows h = ground arith

  buttons-Shows : d ≡ keys_report q → Shows q g d (send_mouse_buttons q)
  unfolding send_mouse_buttons run_gadget step at
  buttons-Shows h = ground arith

  move-Shows : (x y : ℤ) → d ≡ keys_report q → Shows q g d (send_mouse_move q x y)
  unfolding send_mouse_move run_gadget step at
  move-Shows x y h = ground arith

  wheel-Shows :
      (n : ℤ)
      → g.last_buttons ≡ q.buttons % 256
      → d ≡ keys_report q
      → Shows q g d (send_mouse_wheel q n)
  unfolding send_mouse_wheel run_gadget step at
  wheel-Shows n h k = ground arith

module _ (p : Page) (g : Gadget) (d : Bytes) (m : Mirrors p g d) (dc : p.dc_open ≡ true) where
  open m use {kbd, buttons, keys}

  press-dc : (code : String) → (press code p).dc_open ≡ true
  press-dc code = ground arith

  lift-dc : (code : String) → (lift code p).dc_open ≡ true
  lift-dc code = ground arith

  press-buttons : (code : String) → (press code p).buttons ≡ p.buttons
  press-buttons code = ground arith

  lift-buttons : (code : String) → (lift code p).buttons ≡ p.buttons
  lift-buttons code = ground arith

  escape-Shows : let q = release p in Shows q g d (send_keyboard q ++ send_mouse_buttons q)
  unfolding send_mouse_buttons send_keyboard run_gadget step at
  escape-Shows = ground arith

  stay : Shows p g d []
  unfolding run_gadget
  stay = record { kbd = kbd; buttons = buttons; keys = keys }

  captured-Shows : (e : Event) → Shows (captured e p).0 g d (captured e p).1
  captured-Shows (key_down code) =
      keyboard-Shows (press code p) g d kbd (press-dc code)
        (buttons ∙ ap (λ b. b % 256) (sym (press-buttons code)))
  captured-Shows (key_up code) =
      keyboard-Shows (lift code p) g d kbd (lift-dc code)
        (buttons ∙ ap (λ b. b % 256) (sym (lift-buttons code)))
  captured-Shows (mouse_move x y) = move-Shows p g d kbd dc x y keys
  captured-Shows (mouse_down n) = buttons-Shows (captured (mouse_down n) p).0 g d kbd dc keys
  captured-Shows (mouse_up n) = buttons-Shows (captured (mouse_up n) p).0 g d kbd dc keys
  captured-Shows (wheel delta) = wheel-Shows p g d kbd dc (minus_sign delta) buttons keys
  captured-Shows click = stay
  captured-Shows escape = escape-Shows

  when_captured :
      (b : Bool) (e : Event) → let r = if b then captured e p else (p, []) in Shows r.0 g d r.1
  when_captured true e = captured-Shows e
  when_captured false e = stay

  on_event-Shows : (e : Event) → Shows (on_event e p).0 g d (on_event e p).1
  unfolding on_event run_gadget
  on_event-Shows click = record { kbd = kbd; buttons = buttons; keys = keys }
  on_event-Shows (key_down code) = when_captured p.capture_active (key_down code)
  on_event-Shows (key_up code) = when_captured p.capture_active (key_up code)
  on_event-Shows (mouse_move x y) = when_captured p.capture_active (mouse_move x y)
  on_event-Shows (mouse_down n) = when_captured p.capture_active (mouse_down n)
  on_event-Shows (mouse_up n) = when_captured p.capture_active (mouse_up n)
  on_event-Shows (wheel delta) = when_captured p.capture_active (wheel delta)
  on_event-Shows escape = when_captured p.capture_active escape

captured-dc : (e : Event) (p : Page) → (captured e p).0.dc_open ≡ p.dc_open
captured-dc (key_down code) p = ground arith
captured-dc (key_up code) p = ground arith
captured-dc (mouse_move x y) p = refl
captured-dc (mouse_down n) p = refl
captured-dc (mouse_up n) p = refl
captured-dc (wheel delta) p = refl
captured-dc click p = refl
captured-dc escape p = refl

on_event-dc : (e : Event) (p : Page) → (on_event e p).0.dc_open ≡ p.dc_open
unfolding on_event
on_event-dc click p = refl
on_event-dc (key_down code) p = ground (arith, captured-dc (key_down code) p)
on_event-dc (key_up code) p = ground (arith, captured-dc (key_up code) p)
on_event-dc (mouse_move x y) p = ground arith
on_event-dc (mouse_down n) p = ground arith
on_event-dc (mouse_up n) p = ground arith
on_event-dc (wheel delta) p = ground arith
on_event-dc escape p = ground arith

-- The agent mirrors the page: with the data channel open and the agent's keyboard there, after any
-- sequence of events of the page and the frames that it sends of them, `run_gadget` has ended
-- without a panic, the agent's buttons are the page's, and the keyboard's last report holds exactly
-- the page's modifiers and its first six keys, if all this held before.
pub run_gadget-on_events :
    (events : List Event) (p : Page) (g : Gadget) (held : Bytes)
    → Mirrors p g held
    → p.dc_open ≡ true
    → let (q, frames) = on_events events p in
      Succeeds (run_gadget g frames) (λ r. Mirrors q r.0 (keyboard_after held r.1))
unfolding on_events run_gadget
run_gadget-on_events [] p g d m dc = record { kbd = m.kbd; buttons = m.buttons; keys = m.keys }
run_gadget-on_events (e ∷ events) p g d m dc =
    let q = (on_event e p).0 in
    let r = on_events events q in
    run_gadget-append (λ t. Mirrors q t.0 (keyboard_after d t.1))
      (λ t. Mirrors r.0 t.0 (keyboard_after d t.1)) g (on_event e p).1 r.1
      (on_event-Shows p g d m dc e)
      (λ t n.
        Succeeds-mono (λ u. Mirrors r.0 u.0 (keyboard_after (keyboard_after d t.1) u.1))
          (λ u. Mirrors r.0 u.0 (keyboard_after d (t.1 ++ u.1))) (run_gadget t.0 r.1)
          (λ u h. subst (Mirrors r.0 u.0) (sym (keyboard_after-append d t.1 u.1)) h)
          (run_gadget-on_events events q t.0 (keyboard_after d t.1) n (on_event-dc e p ∙ dc)))
