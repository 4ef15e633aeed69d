-- ===== src/Stun/Utf8.antt =====
-- `std::str::from_utf8`: whether a byte string is well-formed UTF-8 (the Unicode standard's table
-- of well-formed sequences, which the Rust documentation refers to).
use any_kvm.Common.{ℕ, Bool, true, ◌&&◌, [], ◌∷◌, leb, if◌then◌else◌}
use any_kvm.Common.Bytes.{Bytes}

abbrev within : ℕ → ℕ → ℕ → Bool
within lo hi b = leb lo b && leb b hi

-- The range of the second byte, after a first byte of a three- or four-byte sequence.
abbrev second : ℕ → ℕ → Bool
second b c =
    if within 0xE0 0xE0 b
    then within 0xA0 0xBF c
    else if within 0xED 0xED b
    then within 0x80 0x9F c
    else if within 0xF0 0xF0 b
    then within 0x90 0xBF c
    else if within 0xF4 0xF4 b
    then within 0x80 0x8F c
    else within 0x80 0xBF c

unfoldable pub is_utf8 : Bytes → Bool
is_utf8 [] = true
is_utf8 (b ∷ []) = leb b 0x7F
is_utf8 (b ∷ c ∷ []) = if leb b 0x7F then leb c 0x7F else within 0xC2 0xDF b && within 0x80 0xBF c
is_utf8 (b ∷ c ∷ d ∷ []) =
    let one = is_utf8 (c ∷ d ∷ []) in
    let two = is_utf8 (d ∷ []) in
    if leb b 0x7F
    then one
    else if within 0xC2 0xDF b
    then within 0x80 0xBF c && two
    else within 0xE0 0xEF b && (second b c && within 0x80 0xBF d)
is_utf8 (b ∷ c ∷ d ∷ e ∷ rest) =
    let one = is_utf8 (c ∷ d ∷ e ∷ rest) in
    let two = is_utf8 (d ∷ e ∷ rest) in
    let three = is_utf8 (e ∷ rest) in
    let four = is_utf8 rest in
    if leb b 0x7F
    then one
    else if within 0xC2 0xDF b
    then within 0x80 0xBF c && two
    else if within 0xE0 0xEF b
    then second b c && (within 0x80 0xBF d && three)
    else within 0xF0 0xF4 b && (second b c && (within 0x80 0xBF d && (within 0x80 0xBF e && four)))
