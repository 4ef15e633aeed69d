-- ===== src/Hid/Frames.antt =====
-- The pointer and the devices of `run_gadget` in agent/src/hid.rs over a sequence of frames.
use any_kvm.Common.{
  ℕ, ◌+◌, ◌<◌, ◌≡◌, Bool, ◌&&◌, ◌||◌, Option, none, some, List, [], ◌∷◌, arith, leb, ltb, ◌==◌,
  if◌then◌else◌, length, get_elem?, Bool-cases, inl, inr, ltb→lt,
}
use any_kvm.Common.Bytes.{Bytes, from_be_bytes_16, eight_bytes}
use any_kvm.Common.Outcome.{at, Succeeds, Succeeds-bind}
use any_kvm.Hid.{type_mouse_move, type_mouse_btn}
use any_kvm.Hid.Gadget.{Gadget, step, run_gadget}

-- The byte of a frame at a position, 0 past its end.
abbrev pub byte : Bytes → ℕ → ℕ
byte f i = elim (get_elem? f i) [ some b ↦ b | none ↦ 0 ]

abbrev pub is_move : Bytes → Bool
is_move f = leb 8 (length f) && byte f 0 == type_mouse_move

abbrev pub is_move_or_btn : Bytes → Bool
is_move_or_btn f = leb 8 (length f) && (byte f 0 == type_mouse_move || byte f 0 == type_mouse_btn)

-- The last frame that passes a test.
abbrev pub last_where : (Bytes → Bool) → List Bytes → Option Bytes
last_where p [] = none
last_where p (f ∷ fs) = elim (last_where p fs) [
  | some g ↦ some g
  | none ↦ if p f then some f else none
]

abbrev pub word_or : Option Bytes → ℕ → ℕ → ℕ
word_or none i d = d
word_or (some f) i d = from_be_bytes_16 (byte f i) (byte f (i + 1))

abbrev pub byte_or : Option Bytes → ℕ → ℕ → ℕ
byte_or none i d = d
byte_or (some f) i d = byte f i

-- The pointer after the frames.
pub record Follows (g : Gadget) (frames : List Bytes) (r : Gadget) : Type 0 where
  pub x : r.last_x ≡ word_or (last_where is_move frames) 2 g.last_x
  pub y : r.last_y ≡ word_or (last_where is_move frames) 4 g.last_y
  pub buttons : r.last_buttons ≡ byte_or (last_where is_move_or_btn frames) 1 g.last_buttons
  pub kbd : r.kbd ≡ g.kbd
  pub mouse : r.mouse ≡ g.mouse

step_eight :
    (g : Gadget) (b0 b1 b2 b3 b4 b5 b6 b7 : ℕ) (rest : Bytes)
    → let f = b0 ∷ b1 ∷ b2 ∷ b3 ∷ b4 ∷ b5 ∷ b6 ∷ b7 ∷ rest in
      Succeeds (step g f) (λ r. Follows g (f ∷ []) r.0)
unfolding step at
step_eight g b0 b1 b2 b3 b4 b5 b6 b7 rest = ground arith

step_short :
    (g : Gadget) (f : Bytes) → length f < 8 → Succeeds (step g f) (λ r. Follows g (f ∷ []) r.0)
unfolding step
step_short g f h = ground arith

pub step-Follows : (g : Gadget) (f : Bytes) → Succeeds (step g f) (λ r. Follows g (f ∷ []) r.0)
step-Follows g f = elim (Bool-cases (ltb (length f) 8)) [
  | inl short ↦ step_short g f (ltb→lt _ _ short)
  | inr long ↦
      let (b0, b1, b2, b3, b4, b5, b6, b7, rest, e) = eight_bytes f (ground arith) in
      rw e (step_eight g b0 b1 b2 b3 b4 b5 b6 b7 rest)
]

Follows-trans :
    (g g' g'' : Gadget) (f : Bytes) (fs : List Bytes)
    → Follows g (f ∷ []) g'
    → Follows g' fs g''
    → Follows g (f ∷ fs) g''
Follows-trans g g' g'' f fs h k = ground arith

-- On every sequence of frames `run_gadget` ends without a panic or an error. The position is then
-- the one in the last move frame of eight bytes or more, the buttons those of the last move or
-- button frame, each as before where there was no such frame, and the devices are as before.
pub run_gadget-Follows :
    (g : Gadget) (frames : List Bytes) → Succeeds (run_gadget g frames) (λ r. Follows g frames r.0)
unfolding run_gadget
run_gadget-Follows g [] = ground arith
run_gadget-Follows g (f ∷ fs) =
    Succeeds-bind (λ r. Follows g (f ∷ []) r.0) (λ r. Follows g (f ∷ fs) r.0) (step g f) _
      (step-Follows g f)
      (λ r h.
        Succeeds-bind (λ t. Follows r.0 fs t.0) (λ t. Follows g (f ∷ fs) t.0) (run_gadget r.0 fs) _
          (run_gadget-Follows r.0 fs) (λ t k. Follows-trans g r.0 t.0 f fs h k))
