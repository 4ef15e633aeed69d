-- ===== src/Hid/Modes.antt =====
-- `run_gadget` and `run_ch9329` of agent/src/hid.rs, side by side.
use any_kvm.Common.{
  ℕ, ◌<◌, ◌≡◌, refl, sym, ◌∙◌, ap, List, [], ◌∷◌, ◌++◌, arith, ltb, length, Bool-cases, inl, inr,
  ltb→lt,
}
use any_kvm.Common.Bytes.{Bytes, eight_bytes}
use any_kvm.Common.Outcome.{at, slice, Succeeds, Succeeds-ok}
use any_kvm.Hid.{VideoControl, Effect, keyboard_write, mouse_write, serial_write, send_control}
use any_kvm.Hid.Gadget
use any_kvm.Hid.Gadget.{Gadget}
use any_kvm.Hid.Ch9329
use any_kvm.Hid.Ch9329.{Serial}

-- The commands among the effects.
abbrev pub commands : List Effect → List VideoControl
commands [] = []
commands (send_control c ∷ es) = c ∷ commands es
commands (keyboard_write r ∷ es) = commands es
commands (mouse_write r ∷ es) = commands es
commands (serial_write r ∷ es) = commands es

commands-append : (xs ys : List Effect) → commands (xs ++ ys) ≡ commands xs ++ commands ys
commands-append [] ys = refl
commands-append (send_control c ∷ es) ys = ap (λ t. c ∷ t) (commands-append es ys)
commands-append (keyboard_write r ∷ es) ys = commands-append es ys
commands-append (mouse_write r ∷ es) ys = commands-append es ys
commands-append (serial_write r ∷ es) ys = commands-append es ys

-- The two loops' variables that correspond.
pub record SameView (g : Gadget) (s : Serial) : Type 0 where
  pub x : g.last_x ≡ s.last_x
  pub y : g.last_y ≡ s.last_y
  pub tx : g.video_ctrl_tx ≡ s.video_ctrl_tx

pub record Agree (r : Gadget × List Effect) (t : Serial × List Effect) : Type 0 where
  pub view : SameView r.0 t.0
  pub sent : commands r.1 ≡ commands t.1

step_eight :
    (g : Gadget) (s : Serial) (b0 b1 b2 b3 b4 b5 b6 b7 : ℕ) (rest : Bytes)
    → SameView g s
    → let f = b0 ∷ b1 ∷ b2 ∷ b3 ∷ b4 ∷ b5 ∷ b6 ∷ b7 ∷ rest in
      Succeeds (Gadget.step g f) (λ r. Succeeds (Ch9329.step s f) (Agree r))
unfolding Gadget.step Ch9329.step at slice
step_eight g s b0 b1 b2 b3 b4 b5 b6 b7 rest v = ground arith

step_short :
    (g : Gadget) (s : Serial) (f : Bytes)
    → length f < 8
    → SameView g s
    → Succeeds (Gadget.step g f) (λ r. Succeeds (Ch9329.step s f) (Agree r))
unfolding Gadget.step Ch9329.step
step_short g s f h v = ground arith

step-Agree :
    (g : Gadget) (s : Serial) (f : Bytes)
    → SameView g s
    → Succeeds (Gadget.step g f) (λ r. Succeeds (Ch9329.step s f) (Agree r))
step-Agree g s f v = elim (Bool-cases (ltb (length f) 8)) [
  | inl short ↦ step_short g s f (ltb→lt _ _ short) v
  | inr long ↦
      let (b0, b1, b2, b3, b4, b5, b6, b7, rest, e) = eight_bytes f (ground arith) in
      rw e (step_eight g s b0 b1 b2 b3 b4 b5 b6 b7 rest v)
]

-- From the same position, the gadget loop and the CH9329 loop both end without a panic on every
-- sequence of frames, at the same position, having sent the same video commands in the same order.
pub modes-Agree :
    (frames : List Bytes) (g : Gadget) (s : Serial)
    → SameView g s
    → Succeeds (Gadget.run_gadget g frames) (λ r. Succeeds (Ch9329.run_ch9329 s frames) (Agree r))
unfolding Gadget.run_gadget Ch9329.run_ch9329
modes-Agree [] g s v = ground arith
modes-Agree (f ∷ fs) g s v =
    let (r, p, h) =
      Succeeds-ok (λ r. Succeeds (Ch9329.step s f) (Agree r)) (Gadget.step g f)
        (step-Agree g s f v) in
    let (t, q, a) = Succeeds-ok (Agree r) (Ch9329.step s f) h in
    let (r', p', h') =
      Succeeds-ok (λ r'. Succeeds (Ch9329.run_ch9329 t.0 fs) (Agree r')) (Gadget.run_gadget r.0 fs)
        (modes-Agree fs r.0 t.0 a.view) in
    let (t', q', a') = Succeeds-ok (Agree r') (Ch9329.run_ch9329 t.0 fs) h' in
    rw (p, p', q, q')
      (record {
        view = a'.view;
        sent = commands-append r.1 r'.1 ∙ rw (a.sent, a'.sent) (sym (commands-append t.1 t'.1));
      })
