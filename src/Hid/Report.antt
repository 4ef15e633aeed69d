-- ===== src/Hid/Report.antt =====
-- The contents of the reports of agent/src/hid.rs, and where they are sent.
use any_kvm.Common.{
  ℕ, ◌+◌, ◌*◌, ◌%◌, ◌^◌, ◌<◌, ◌≡◌, ◌∙◌, ap, bit_and, true, List, [], ◌∷◌, ◌++◌, arith, ltb, length,
  All, All-append, length-append, Bool-cases, inl, inr, ltb→lt,
}
use any_kvm.Common.Bits.{bit_and_255}
use any_kvm.Common.Bytes.{Bytes, IsByte, eight_bytes}
use any_kvm.Common.Outcome.{at, Succeeds, Succeeds-bind}
use any_kvm.Hid.{
  Effect, keyboard_write, mouse_write, serial_write, send_control, as_i8, i8_as_u8,
  make_abs_mouse_report,
}
use any_kvm.Hid.Gadget.{Gadget, step, run_gadget}
use any_kvm.Hid.Ch9329.{sum, ch9329_frame}

-- The report's descriptor: a button byte, two little-endian coordinates, a wheel byte.
abbrev pub decode_report : Bytes → ℕ × ℕ × ℕ × ℕ
decode_report (b ∷ x0 ∷ x1 ∷ y0 ∷ y1 ∷ w ∷ []) = (b, x1 * 256 + x0, y1 * 256 + y0, w)
decode_report _ = (0, 0, 0, 0)

pub i8_as_u8-as_i8 : (b : ℕ) → IsByte b → i8_as_u8 (as_i8 b) ≡ b
i8_as_u8-as_i8 b h = ground arith

-- The mouse report of 16-bit coordinates decodes, by the descriptor, to the buttons, the position
-- and the wheel byte that it was made from.
pub decode-make_abs_mouse_report :
    (b x y w : ℕ)
    → x < 2 ^ 16
    → y < 2 ^ 16
    → IsByte w
    → decode_report (make_abs_mouse_report b x y (as_i8 w)) ≡ (b, x, y, w)
unfolding make_abs_mouse_report
decode-make_abs_mouse_report b x y w hx hy hw =
    rw (bit_and_255, bit_and_255, bit_and_255, bit_and_255, i8_as_u8-as_i8 w hw) (ground arith)

sum-append : (xs ys : Bytes) → sum (xs ++ ys) ≡ sum xs + sum ys
unfolding sum
sum-append [] ys = omega arith
sum-append (x ∷ xs) ys = omega (arith, sum-append xs ys)

-- A CH9329 frame is its five-byte header, the payload and one more byte: six bytes longer than the
-- payload, and the last byte is the sum of all bytes before it, modulo 256.
pub ch9329_frame_checksum :
    (cmd : ℕ) (payload : Bytes)
    → (body : Bytes) × (ch9329_frame cmd payload ≡ body ++ (sum body % 256 ∷ []))
      × (length (ch9329_frame cmd payload) ≡ length payload + 6)
unfolding ch9329_frame
ch9329_frame_checksum cmd payload =
    let body : Bytes = (0x57 ∷ 0xAB ∷ 0x00 ∷ cmd ∷ length payload % 256 ∷ []) ++ payload in
    (
      body,
      rw bit_and_255 (ap (λ t. body ++ (t ∷ [])) (omega arith)),
      omega (arith, length-append payload (bit_and (sum body) 0xff % 256 ∷ [])),
    )

-- A report is sent to a device that is open, and has that device's length.
abbrev pub Allowed : Gadget → Effect → Type 0
Allowed g (keyboard_write r) = (g.kbd ≡ true) × (length r ≡ 8)
Allowed g (mouse_write r) = (g.mouse ≡ true) × (length r ≡ 6)
Allowed g (serial_write r) = ⊥
Allowed g (send_control c) = g.video_ctrl_tx ≡ true

-- What a step may do to the set of devices, and to whom it may write.
pub record Obeys (g : Gadget) (r : Gadget × List Effect) : Type 0 where
  pub kbd : r.0.kbd ≡ g.kbd
  pub mouse : r.0.mouse ≡ g.mouse
  pub video_ctrl_tx : r.0.video_ctrl_tx ≡ g.video_ctrl_tx
  pub allowed : All (Allowed g) r.1

step_eight :
    (g : Gadget) (b0 b1 b2 b3 b4 b5 b6 b7 : ℕ) (rest : Bytes)
    → Succeeds (step g (b0 ∷ b1 ∷ b2 ∷ b3 ∷ b4 ∷ b5 ∷ b6 ∷ b7 ∷ rest)) (Obeys g)
unfolding step at
step_eight g b0 b1 b2 b3 b4 b5 b6 b7 rest = ground arith

step_short : (g : Gadget) (f : Bytes) → length f < 8 → Succeeds (step g f) (Obeys g)
unfolding step
step_short g f h = ground arith

step-Obeys : (g : Gadget) (f : Bytes) → Succeeds (step g f) (Obeys g)
step-Obeys g f = elim (Bool-cases (ltb (length f) 8)) [
  | inl short ↦ step_short g f (ltb→lt _ _ short)
  | inr long ↦
      let (b0, b1, b2, b3, b4, b5, b6, b7, rest, e) = eight_bytes f (ground arith) in
      rw e (step_eight g b0 b1 b2 b3 b4 b5 b6 b7 rest)
]

Allowed-shift :
    (g h : Gadget) (es : List Effect)
    → h.kbd ≡ g.kbd
    → h.mouse ≡ g.mouse
    → h.video_ctrl_tx ≡ g.video_ctrl_tx
    → All (Allowed h) es
    → All (Allowed g) es
Allowed-shift g h [] p q r a = a
Allowed-shift g h (keyboard_write x ∷ es) p q r a = ground (arith, Allowed-shift g h es p q r)
Allowed-shift g h (mouse_write x ∷ es) p q r a = ground (arith, Allowed-shift g h es p q r)
Allowed-shift g h (serial_write x ∷ es) p q r a = absurd a.0
Allowed-shift g h (send_control x ∷ es) p q r a = ground (arith, Allowed-shift g h es p q r)

Obeys-trans :
    (g : Gadget) (r t : Gadget × List Effect) → Obeys g r → Obeys r.0 t → Obeys g (t.0, r.1 ++ t.1)
Obeys-trans g r t h k = record {
  kbd = k.kbd ∙ h.kbd;
  mouse = k.mouse ∙ h.mouse;
  video_ctrl_tx = k.video_ctrl_tx ∙ h.video_ctrl_tx;
  allowed =
      All-append (Allowed g) r.1 t.1 h.allowed
        (Allowed-shift g r.0 t.1 h.kbd h.mouse h.video_ctrl_tx k.allowed);
}

-- Whatever frames arrive, `run_gadget` ends without a panic or an error, writes eight-byte reports
-- to an open keyboard only, six-byte reports to an open mouse only, nothing to a serial port, and
-- sends video commands only if it was given the channel for them.
pub run_gadget-Obeys : (g : Gadget) (frames : List Bytes) → Succeeds (run_gadget g frames) (Obeys g)
unfolding run_gadget
run_gadget-Obeys g [] = ground arith
run_gadget-Obeys g (f ∷ fs) =
    Succeeds-bind (Obeys g) (Obeys g) (step g f) _ (step-Obeys g f) (λ r h.
      Succeeds-bind (Obeys r.0) (Obeys g) (run_gadget r.0 fs) _ (run_gadget-Obeys r.0 fs)
        (λ t k. Obeys-trans g r t h k))
