-- ===== src/Webrtc/LocalAddrs.antt =====
-- `get_local_ips` of agent/src/webrtc.rs. The address that the system chooses for a connection to
-- the outside and the text of /proc/net/fib_trie, which is ASCII, are arguments.
use any_kvm.Common.{
  ℕ, ◌+◌, ◌*◌, ◌/◌, ◌^◌, ◌≡◌, refl, Bool, true, false, not, ◌&&◌, ◌||◌, Option, none, some, List,
  [], ◌∷◌, ◌++◌, arith, ltb, leb, ◌==◌, if◌then◌else◌, length, All, All-append,
}
use any_kvm.Common.Bytes.{Bytes, codes}
use any_kvm.Stun.{IpAddr, v4, v6}
use any_kvm.Stun.Network.{strip_prefix, same_ip}
use any_kvm.Video.Decimal.{parse_digits}
use any_kvm.Video.Restart.{split}
use any_kvm.Webrtc.Transport.{contains_ip}

abbrev is_loopback : IpAddr → Bool
is_loopback (v4 a) = a / 2 ^ 24 == 127
is_loopback (v6 a) = a == 1

abbrev is_unspecified : IpAddr → Bool
is_unspecified (v4 a) = a == 0
is_unspecified (v6 a) = a == 0

abbrev pub usable : IpAddr → Bool
usable ip = not (is_loopback ip) && not (is_unspecified ip)

-- `content.lines()`; the line that is being read comes first.
abbrev pub lines : Bytes → Bytes → List Bytes
lines [] [] = []
lines (b ∷ part) [] = (b ∷ part) ∷ []
lines part (b ∷ s) = if b == 10 then part ∷ lines [] s else lines (part ++ (b ∷ [])) s

abbrev is_space : ℕ → Bool
is_space b = b == 32 || (leb 9 b && leb b 13)

abbrev trim_start : Bytes → Bytes
trim_start [] = []
trim_start (b ∷ s) = if is_space b then trim_start s else b ∷ s

abbrev trim_end : Bytes → Bytes
trim_end [] = []
trim_end (b ∷ s) = elim (trim_end s) [ [] ↦ if is_space b then [] else b ∷ [] | c ∷ t ↦ b ∷ c ∷ t ]

-- One to three digits, no zero in front, at most 255.
abbrev pub octet : Bytes → Option ℕ
octet [] = none
octet (b ∷ s) =
    if ltb 2 (length s) || (b == b'0' && not (length s == 0))
    then none
    else elim (parse_digits (b ∷ s) 0) [ none ↦ none | some n ↦ if leb n 255 then some n else none ]

infixl 5 ◌>>=◌
abbrev ◌>>=◌ : {A B : Type 0} → Option A → (A → Option B) → Option B
none >>= f = none
some a >>= f = f a

abbrev four_octets : List Bytes → Option ℕ
four_octets (s3 ∷ s2 ∷ s1 ∷ s0 ∷ []) = do
  a3 ← octet s3
  a2 ← octet s2
  a1 ← octet s1
  a0 ← octet s0
  some (((a3 * 256 + a2) * 256 + a1) * 256 + a0)
four_octets _ = none

-- `ip_str.parse::<Ipv4Addr>()`
unfoldable pub parse_ipv4 : Bytes → Option ℕ
parse_ipv4 s = four_octets (split b'.' [] s)

-- The variables of the loop.
pub record Trie : Type 0 where
  pub last_ip : Option ℕ
  pub ips : List IpAddr

-- `if … { ips.push(ip); }`
unfoldable pub push_ip : IpAddr → List IpAddr → List IpAddr
push_ip ip ips = if usable ip && not (contains_ip ip ips) then ips ++ (ip ∷ []) else ips

unfoldable pub on_host : Option ℕ → List IpAddr → List IpAddr
unfolding push_ip
on_host none ips = ips
on_host (some a) ips = push_ip (v4 a) ips

unfoldable pub on_line : Bytes → Trie → Trie
unfolding parse_ipv4 on_host
on_line trimmed t = elim (strip_prefix (codes "|-- ") trimmed) [
  | some ip_str ↦ record t { last_ip = parse_ipv4 ip_str }
  | none ↦ elim (strip_prefix (codes "/32 host LOCAL") trimmed) [
    | some rest ↦ record { last_ip = none; ips = on_host t.last_ip t.ips }
    | none ↦ t
  ]
]

unfoldable pub on_lines : List Bytes → Trie → Trie
unfolding on_line
on_lines [] t = t
on_lines (line ∷ rest) t = on_lines rest (on_line (trim_end (trim_start line)) t)

-- The first address, if it can be found and used.
unfoldable pub outgoing_ips : Option IpAddr → List IpAddr
outgoing_ips none = []
outgoing_ips (some ip) = if usable ip then ip ∷ [] else []

unfoldable pub get_local_ips : Option IpAddr → Option Bytes → List IpAddr
unfolding outgoing_ips on_lines
get_local_ips outgoing none = outgoing_ips outgoing
get_local_ips outgoing (some content) =
    (on_lines (lines [] content) (record { last_ip = none; ips = outgoing_ips outgoing })).ips

-- No address stands in the list again.
abbrev pub Distinct : List IpAddr → Type 0
Distinct [] = Unit
Distinct (x ∷ xs) = (contains_ip x xs ≡ false) × Distinct xs

-- Neither loopback nor unspecified, and no address twice.
abbrev pub IsUsable : List IpAddr → Type 0
IsUsable ips = All (λ ip. usable ip ≡ true) ips × Distinct ips

same_ip_sym : (x y : IpAddr) → same_ip x y ≡ false → same_ip y x ≡ false
same_ip_sym (v4 a) (v4 b) h = ground arith
same_ip_sym (v6 a) (v6 b) h = ground arith
same_ip_sym (v4 a) (v6 b) h = refl
same_ip_sym (v6 a) (v4 b) h = refl

contains_ip-snoc :
    (x y : IpAddr) (xs : List IpAddr)
    → contains_ip x xs ≡ false
    → same_ip x y ≡ false
    → contains_ip x (xs ++ (y ∷ [])) ≡ false
contains_ip-snoc x y [] h k = ground arith
contains_ip-snoc x y (z ∷ xs) h k = ground (arith, contains_ip-snoc x y xs)

Distinct-snoc :
    (x : IpAddr) (xs : List IpAddr)
    → Distinct xs
    → contains_ip x xs ≡ false
    → Distinct (xs ++ (x ∷ []))
Distinct-snoc x [] d h = (refl, tt)
Distinct-snoc x (y ∷ xs) d h =
    let apart : same_ip x y ≡ false = ground arith in
    let later : contains_ip x xs ≡ false = ground arith in
    (contains_ip-snoc y x xs d.0 (same_ip_sym x y apart), Distinct-snoc x xs d.1 later)

push_ip-IsUsable : (ip : IpAddr) (ips : List IpAddr) → IsUsable ips → IsUsable (push_ip ip ips)
unfolding push_ip
push_ip-IsUsable ip ips h = by_test (usable ip) (contains_ip ip ips) refl refl
  where
    by_test :
        (u c : Bool)
        → usable ip ≡ u
        → contains_ip ip ips ≡ c
        → IsUsable (if u && not c then ips ++ (ip ∷ []) else ips)
    by_test true false e f =
        (All-append (λ a. usable a ≡ true) ips (ip ∷ []) h.0 (e, tt), Distinct-snoc ip ips h.1 f)
    by_test true true e f = h
    by_test false c e f = h

on_host-IsUsable :
    (last : Option ℕ) (ips : List IpAddr) → IsUsable ips → IsUsable (on_host last ips)
unfolding on_host
on_host-IsUsable none ips h = h
on_host-IsUsable (some a) ips h = push_ip-IsUsable (v4 a) ips h

on_line-IsUsable : (line : Bytes) (t : Trie) → IsUsable t.ips → IsUsable (on_line line t).ips
unfolding on_line
on_line-IsUsable line t h =
    by_prefix (strip_prefix (codes "|-- ") line) (strip_prefix (codes "/32 host LOCAL") line)
  where
    by_prefix :
        (p q : Option Bytes)
        → IsUsable
            (elim p as (λ x. Trie) [
              | some ip_str ↦ record t { last_ip = parse_ipv4 ip_str }
              | none ↦ elim q as (λ x. Trie) [
                | some rest ↦ record { last_ip = none; ips = on_host t.last_ip t.ips }
                | none ↦ t
              ]
            ]).ips
    by_prefix (some s) q = h
    by_prefix none (some s) = on_host-IsUsable t.last_ip t.ips h
    by_prefix none none = h

on_lines-IsUsable : (ls : List Bytes) (t : Trie) → IsUsable t.ips → IsUsable (on_lines ls t).ips
unfolding on_lines
on_lines-IsUsable [] t h = h
on_lines-IsUsable (line ∷ rest) t h =
    on_lines-IsUsable rest _ (on_line-IsUsable (trim_end (trim_start line)) t h)

outgoing_ips-IsUsable : (o : Option IpAddr) → IsUsable (outgoing_ips o)
unfolding outgoing_ips
outgoing_ips-IsUsable none = (tt, tt)
outgoing_ips-IsUsable (some ip) = by_test (usable ip) refl
  where
    by_test : (u : Bool) → usable ip ≡ u → IsUsable (if u then ip ∷ [] else [])
    by_test true e = ((e, tt), (refl, tt))
    by_test false e = (tt, tt)

-- Whatever the system answers, no address that `get_local_ips` returns is a loopback or unspecified
-- address, and none is there twice.
pub get_local_ips-IsUsable :
    (outgoing : Option IpAddr) (content : Option Bytes) → IsUsable (get_local_ips outgoing content)
unfolding get_local_ips
get_local_ips-IsUsable outgoing none = outgoing_ips-IsUsable outgoing
get_local_ips-IsUsable outgoing (some content) =
    on_lines-IsUsable (lines [] content) _ (outgoing_ips-IsUsable outgoing)
