-- ===== src/Server/Pages/Listed.antt =====
-- signal/main.go: the registry in every reachable state, and what `agentsHandler` lists.
use Prim.Native.String.{String}
use any_kvm.Common.{ℕ, ◌≡◌, Option, none, some}
use any_kvm.Common.Bytes.{Bytes}
use any_kvm.Server.{device, Server}
use any_kvm.Server.Handler.{Reach}
use any_kvm.Server.Standing.{standing}
use any_kvm.Server.Pages.{AgentInfo, Visit, visit_info}

-- What the page says of the room of a name is so in a state: it lists no device and none stands there,
-- or it lists one, by that name, and a device stands there whose connection asked for that room.
abbrev pub Tells : Server → String → Option AgentInfo → Type 0
Tells s id none = standing s id device ≡ none
Tells s id (some a) =
    (a.room_id ≡ id)
    × ((p : ℕ) × (standing s id device ≡ some p)
        × ((s.conns p).role ≡ device)
        × ((s.conns p).room_id ≡ id))

-- The state of a visit is one that the server reaches, and what is listed is so in it.
abbrev pub IsTrue : (Bytes → Option String) → Visit → Type 0
IsTrue kind v = Reach kind v.0 × Tells v.0 v.1.0 (visit_info v)
