-- ===== src/Web.antt =====
-- web/app.js: how the browser makes control frames of the events of its keyboard and mouse. A
-- `Uint8Array` takes each number modulo 256. The position of the pointer, after `Math.round`, and
-- the wheel's `deltaY` are integers of the event.
mod Keys
pub mod Mirror
pub mod Quality
mod Runs
use Prim.Native.String.{String}
use any_kvm.Common.{
  ℕ, zero, suc, ◌-◌, ◌/◌, ◌%◌, ◌^◌, min, Bool, true, false, not, List, [], ◌∷◌, ◌++◌, map, bit_and,
  bit_or, ◌==◌, if◌then◌else◌,
}
use any_kvm.Common.Bytes.{Bytes}
use any_kvm.Common.Int.{ℤ, pos, negsuc}
use Keys.{modifier_bit, usage_of}

-- `hid`, whether the pointer is captured, and whether the data channel is open.
pub record Page : Type 0 where
  pub modifier : ℕ
  pub keys : List ℕ
  pub buttons : ℕ
  pub capture_active : Bool
  pub dc_open : Bool

abbrev pub uint8_array : List ℕ → Bytes
uint8_array = map (λ b. b % 256)

-- `sendHid`
abbrev pub send_hid : Page → List ℕ → List Bytes
send_hid p frame = if p.dc_open then uint8_array frame ∷ [] else []

-- `slice(0, 6)`, and zeros for what is missing
abbrev pub first : List ℕ → ℕ
first [] = 0
first (k ∷ keys) = k

abbrev pub rest : List ℕ → List ℕ
rest [] = []
rest (k ∷ keys) = keys

abbrev pub six : ℕ → List ℕ → List ℕ
six zero keys = []
six (suc n) keys = first keys ∷ six n (rest keys)

unfoldable pub send_keyboard : Page → List Bytes
send_keyboard p = send_hid p (0x01 ∷ p.modifier ∷ six 6 p.keys)

-- `Math.min(32767, Math.max(0, n))`
abbrev pub clamp : ℤ → ℕ
clamp (pos n) = min 32767 n
clamp (negsuc n) = 0

unfoldable pub send_mouse_move : Page → ℤ → ℤ → List Bytes
send_mouse_move p x y =
    let ax : ℕ = clamp x in
    let ay : ℕ = clamp y in
    send_hid p (
      0x02
      ∷ p.buttons
      ∷ bit_and (ax / 2 ^ 8) 0xff
      ∷ bit_and ax 0xff
      ∷ bit_and (ay / 2 ^ 8) 0xff
      ∷ bit_and ay 0xff
      ∷ 0
      ∷ 0
      ∷ [])

unfoldable pub send_mouse_buttons : Page → List Bytes
send_mouse_buttons p = send_hid p (0x03 ∷ p.buttons ∷ 0 ∷ 0 ∷ 0 ∷ 0 ∷ 0 ∷ 0 ∷ [])

-- `Math.max(-127, Math.min(127, delta)) & 0xff`
abbrev pub wheel_byte : ℤ → ℕ
wheel_byte (pos n) = min 127 n
wheel_byte (negsuc n) = 255 - min 126 n

unfoldable pub send_mouse_wheel : Page → ℤ → List Bytes
send_mouse_wheel p delta = send_hid p (0x04 ∷ wheel_byte delta ∷ 0 ∷ 0 ∷ 0 ∷ 0 ∷ 0 ∷ 0 ∷ [])

-- `hid.keys.add` and `hid.keys.delete`
abbrev pub mem : ℕ → List ℕ → Bool
mem k [] = false
mem k (j ∷ keys) = if j == k then true else mem k keys

abbrev pub add : ℕ → List ℕ → List ℕ
add k keys = if mem k keys then keys else keys ++ (k ∷ [])

abbrev pub delete : ℕ → List ℕ → List ℕ
delete k [] = []
delete k (j ∷ keys) = if j == k then delete k keys else (j ∷ delete k keys)

-- `a & ~b`
abbrev pub and_not : ℕ → ℕ → ℕ
and_not a b = a - bit_and a b

abbrev pub press : String → Page → Page
press code p =
    if not (modifier_bit code == 0)
    then (record p { modifier = bit_or p.modifier (modifier_bit code) })
    else (if usage_of code == 0 then p else (record p { keys = add (usage_of code) p.keys }))

abbrev pub lift : String → Page → Page
lift code p =
    if not (modifier_bit code == 0)
    then (record p { modifier = and_not p.modifier (modifier_bit code) })
    else (if usage_of code == 0 then p else (record p { keys = delete (usage_of code) p.keys }))

-- `[0x01, 0x04, 0x02][button] || 0`
abbrev pub button_bit : ℕ → ℕ
button_bit n = if n == 0 then 0x01 else (if n == 1 then 0x04 else (if n == 2 then 0x02 else 0))

-- `-Math.sign(deltaY)`
abbrev pub minus_sign : ℤ → ℤ
minus_sign (pos zero) = pos 0
minus_sign (pos (suc n)) = negsuc 0
minus_sign (negsuc n) = pos 1

pub data Event : Type 0 where
  key_down : String → Event
  key_up : String → Event
  mouse_move : ℤ → ℤ → Event
  mouse_down : ℕ → Event
  mouse_up : ℕ → Event
  wheel : ℤ → Event
  click : Event  -- `activateCapture`
  escape : Event  -- `deactivateCapture`

abbrev pub release : Page → Page
release p = record p { modifier = 0; keys = []; buttons = 0; capture_active = false }

abbrev pub captured : Event → Page → Page × List Bytes
captured (key_down code) p = let q = press code p in (q, send_keyboard q)
captured (key_up code) p = let q = lift code p in (q, send_keyboard q)
captured (mouse_move x y) p = (p, send_mouse_move p x y)
captured (mouse_down n) p =
    let q = record p { buttons = bit_or p.buttons (button_bit n) } in (q, send_mouse_buttons q)
captured (mouse_up n) p =
    let q = record p { buttons = and_not p.buttons (button_bit n) } in (q, send_mouse_buttons q)
captured (wheel delta) p = (p, send_mouse_wheel p (minus_sign delta))
captured click p = (p, [])
captured escape p = let q = release p in (q, send_keyboard q ++ send_mouse_buttons q)

-- The listeners are there while the pointer is captured. A `keydown` whose `key` is Escape is the
-- event `escape`: the listener for it comes first and takes the other one away.
unfoldable pub on_event : Event → Page → Page × List Bytes
on_event click p = (record p { capture_active = true }, [])
on_event e p = if p.capture_active then captured e p else (p, [])

unfoldable pub on_events : List Event → Page → Page × List Bytes
on_events [] p = (p, [])
on_events (e ∷ events) p =
    let (q, frames) = on_event e p in let (r, more) = on_events events q in (r, frames ++ more)
