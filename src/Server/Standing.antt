-- ===== src/Server/Standing.antt =====
-- signal/main.go: what the rooms are for: who stands in the room of a name in which role. Of the
-- registry, a step of this description is told one bit.
pub mod Refine
pub mod Kept
pub mod Lost
use Prim.Native.String.{String}
use text.Mathlib.Text.{◌==◌ as str_eq}
use any_kvm.Common.{ℕ, Bool, true, false, ◌&&◌, Option, none, some, ◌==◌, if◌then◌else◌}
use any_kvm.Server.{Role, device, client, Room, Stage, Server, lookup}
use any_kvm.Server.Invariant.{slot, room_of}

abbrev pub standing_at : Option ℕ → (ℕ → Room) → Role → Option ℕ
standing_at none heap role = none
standing_at (some r) heap role = slot role (heap r)

-- Who stands in the room of a name.
abbrev pub standing : Server → String → Role → Option ℕ
standing s id role = standing_at (lookup id s.rooms) s.heap role

abbrev pub same_role : Role → Role → Bool
same_role device device = true
same_role device client = false
same_role client device = false
same_role client client = true

abbrev pub is_at : ℕ → Option ℕ → Bool
is_at r none = false
is_at r (some q) = r == q

-- Whether the room that a connection has got is still the one that the registry has under its name.
-- This is all that a step has to know of the registry.
abbrev pub is_current : Server → String → Stage → Bool
is_current s id g = elim (room_of g) [ none ↦ false | some r ↦ is_at r (lookup id s.rooms) ]

-- One place changes.
abbrev pub place :
    Bool → String → Role → Option ℕ → (String → Role → Option ℕ) → String → Role → Option ℕ
place current id role p a key ro =
    if current && (str_eq id key && same_role role ro) then p else a key ro

-- Who stands where after the next step of a goroutine, given who stood where before it, the stage and
-- the peer of its connection with its room name and role, and whether its room is current: the
-- connection comes when its room is set, and its place is empty when the room is cleared.
abbrev pub then_standing :
    Stage → Bool → ℕ → String → Role → (String → Role → Option ℕ) → String → Role → Option ℕ
then_standing (Stage.found r) current i id role a = place current id role (some i) a
then_standing (Stage.leaving r) current i id role a = place current id role none a
then_standing _ current i id role a = a
