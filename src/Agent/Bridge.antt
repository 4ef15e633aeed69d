-- ===== src/Agent/Bridge.antt =====
-- What the bridges of agent/src/main.rs broadcast.
use any_kvm.Common.{◌≡◌, ◌∙◌, Bool, true, false, List, [], ◌∷◌, ◌++◌, arith, All}
use any_kvm.Common.Bytes.{Bytes}
use any_kvm.Agent.{Turn, bridge}

-- A turn without a browser.
abbrev pub IsIdle : Turn → Type 0
IsIdle t = t.connected ≡ false

-- With a browser.
abbrev pub IsServing : Turn → Type 0
IsServing t = t.connected ≡ true

bridge_idle :
    (was_idle : Bool) (queue : List Bytes) (t : Turn) (turns : List Turn)
    → IsIdle t
    → bridge was_idle queue (t ∷ turns) ≡ bridge true (queue ++ t.arrived) turns
unfolding bridge
bridge_idle was_idle queue t turns h = ground arith

bridge_resume :
    (queue : List Bytes) (t : Turn) (turns : List Turn)
    → IsServing t
    → bridge true queue (t ∷ turns) ≡ bridge true [] (record t { arrived = [] } ∷ turns)
unfolding bridge
bridge_resume queue t turns h = ground arith

-- Frames that pile up while no browser is connected are never shown: after at least one idle turn,
-- a browser that connects gets what it would have got if the channel had been empty and nothing
-- had arrived in the idle turns.
pub bridge-IsIdle :
    (was_idle : Bool) (queue : List Bytes) (i : Turn) (idle : List Turn) (t : Turn)
    (turns : List Turn)
    → IsIdle i
    → All IsIdle idle
    → IsServing t
    → bridge was_idle queue (i ∷ (idle ++ (t ∷ turns)))
      ≡ bridge true [] (record t { arrived = [] } ∷ turns)
bridge-IsIdle was_idle queue i [] t turns h hs k =
    bridge_idle was_idle queue i (t ∷ turns) h ∙ bridge_resume (queue ++ i.arrived) t turns k
bridge-IsIdle was_idle queue i (j ∷ idle) t turns h hs k =
    bridge_idle was_idle queue i (j ∷ (idle ++ (t ∷ turns))) h
    ∙ bridge-IsIdle true (queue ++ i.arrived) j idle t turns hs.0 hs.1 k
