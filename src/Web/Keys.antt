-- ===== src/Web/Keys.antt =====
-- web/app.js: the tables of the keys.
use Prim.Native.String.{String}
use text.Mathlib.Text.{◌==◌ as str_eq}
use any_kvm.Common.{ℕ, List, [], ◌∷◌, if◌then◌else◌}

abbrev key_map : List (String × ℕ)
key_map =
    ("KeyA", 0x04)
    ∷ ("KeyB", 0x05)
    ∷ ("KeyC", 0x06)
    ∷ ("KeyD", 0x07)
    ∷ ("KeyE", 0x08)
    ∷ ("KeyF", 0x09)
    ∷ ("KeyG", 0x0A)
    ∷ ("KeyH", 0x0B)
    ∷ ("KeyI", 0x0C)
    ∷ ("KeyJ", 0x0D)
    ∷ ("KeyK", 0x0E)
    ∷ ("KeyL", 0x0F)
    ∷ ("KeyM", 0x10)
    ∷ ("KeyN", 0x11)
    ∷ ("KeyO", 0x12)
    ∷ ("KeyP", 0x13)
    ∷ ("KeyQ", 0x14)
    ∷ ("KeyR", 0x15)
    ∷ ("KeyS", 0x16)
    ∷ ("KeyT", 0x17)
    ∷ ("KeyU", 0x18)
    ∷ ("KeyV", 0x19)
    ∷ ("KeyW", 0x1A)
    ∷ ("KeyX", 0x1B)
    ∷ ("KeyY", 0x1C)
    ∷ ("KeyZ", 0x1D)
    ∷ ("Digit1", 0x1e)
    ∷ ("Digit2", 0x1f)
    ∷ ("Digit3", 0x20)
    ∷ ("Digit4", 0x21)
    ∷ ("Digit5", 0x22)
    ∷ ("Digit6", 0x23)
    ∷ ("Digit7", 0x24)
    ∷ ("Digit8", 0x25)
    ∷ ("Digit9", 0x26)
    ∷ ("Digit0", 0x27)
    ∷ ("Enter", 0x28)
    ∷ ("Escape", 0x29)
    ∷ ("Backspace", 0x2a)
    ∷ ("Tab", 0x2b)
    ∷ ("Space", 0x2c)
    ∷ ("Minus", 0x2d)
    ∷ ("Equal", 0x2e)
    ∷ ("BracketLeft", 0x2f)
    ∷ ("BracketRight", 0x30)
    ∷ ("Backslash", 0x31)
    ∷ ("Semicolon", 0x33)
    ∷ ("Quote", 0x34)
    ∷ ("Backquote", 0x35)
    ∷ ("Comma", 0x36)
    ∷ ("Period", 0x37)
    ∷ ("Slash", 0x38)
    ∷ ("CapsLock", 0x39)
    ∷ ("F1", 0x3a)
    ∷ ("F2", 0x3b)
    ∷ ("F3", 0x3c)
    ∷ ("F4", 0x3d)
    ∷ ("F5", 0x3e)
    ∷ ("F6", 0x3f)
    ∷ ("F7", 0x40)
    ∷ ("F8", 0x41)
    ∷ ("F9", 0x42)
    ∷ ("F10", 0x43)
    ∷ ("F11", 0x44)
    ∷ ("F12", 0x45)
    ∷ ("PrintScreen", 0x46)
    ∷ ("ScrollLock", 0x47)
    ∷ ("Pause", 0x48)
    ∷ ("Insert", 0x49)
    ∷ ("Home", 0x4a)
    ∷ ("PageUp", 0x4b)
    ∷ ("Delete", 0x4c)
    ∷ ("End", 0x4d)
    ∷ ("PageDown", 0x4e)
    ∷ ("ArrowRight", 0x4f)
    ∷ ("ArrowLeft", 0x50)
    ∷ ("ArrowDown", 0x51)
    ∷ ("ArrowUp", 0x52)
    ∷ ("NumLock", 0x53)
    ∷ ("NumpadDivide", 0x54)
    ∷ ("NumpadMultiply", 0x55)
    ∷ ("NumpadSubtract", 0x56)
    ∷ ("NumpadAdd", 0x57)
    ∷ ("NumpadEnter", 0x58)
    ∷ ("Numpad1", 0x59)
    ∷ ("Numpad2", 0x5a)
    ∷ ("Numpad3", 0x5b)
    ∷ ("Numpad4", 0x5c)
    ∷ ("Numpad5", 0x5d)
    ∷ ("Numpad6", 0x5e)
    ∷ ("Numpad7", 0x5f)
    ∷ ("Numpad8", 0x60)
    ∷ ("Numpad9", 0x61)
    ∷ ("Numpad0", 0x62)
    ∷ ("NumpadDecimal", 0x63)
    ∷ ("ContextMenu", 0x65)
    ∷ ("ControlLeft", 0)
    ∷ ("ControlRight", 0)
    ∷ ("ShiftLeft", 0)
    ∷ ("ShiftRight", 0)
    ∷ ("AltLeft", 0)
    ∷ ("AltRight", 0)
    ∷ ("MetaLeft", 0)
    ∷ ("MetaRight", 0)
    ∷ []

-- `switch (code)`, as a table.
abbrev modifiers : List (String × ℕ)
modifiers =
    ("ControlLeft", 0x01)
    ∷ ("ShiftLeft", 0x02)
    ∷ ("AltLeft", 0x04)
    ∷ ("MetaLeft", 0x08)
    ∷ ("ControlRight", 0x10)
    ∷ ("ShiftRight", 0x20)
    ∷ ("AltRight", 0x40)
    ∷ ("MetaRight", 0x80)
    ∷ []

-- The entry of a key code, 0 for a code that is not in the table.
unfoldable pub entry : List (String × ℕ) → String → ℕ
entry [] code = 0
entry ((k, usage) ∷ table) code = if str_eq k code then usage else entry table code

unfoldable pub modifier_bit : String → ℕ
modifier_bit = entry modifiers

-- `KEY_MAP[code]`
unfoldable pub usage_of : String → ℕ
usage_of = entry key_map
