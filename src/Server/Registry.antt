-- ===== src/Server/Registry.antt =====
-- signal/main.go: the registry of the rooms, `getOrCreate` and `tryDelete`.
use Prim.Native.String.{String}
use text.Mathlib.Text.{◌==◌ as str_eq}
use text.Mathlib.TextEquality.{eq_iff}
use any_kvm.Common.{
  ℕ, ◌<◌, ◌≡◌, refl, true, false, Option, none, some, List, [], ◌∷◌, arith, ◌==◌, if◌then◌else◌,
}
use any_kvm.Server.{
  Role, device, client, Server, new_room, lookup, remove, create, enter, delete_at, try_delete,
  is_empty,
}
use any_kvm.Server.Invariant.{Inv, update-cases, slot, Fits}

pub lookup-remove :
    (id key : String) (rooms : List (String × ℕ))
    → lookup key (remove id rooms) ≡ (if str_eq id key then none else lookup key rooms)
unfolding lookup remove
lookup-remove id key [] = ground arith
lookup-remove id key ((k, r) ∷ rooms) =
    ground (arith, lookup-remove id key rooms, eq_iff k id, eq_iff k key, eq_iff id key)

pub lookup-remove-some :
    (id key : String) (rooms : List (String × ℕ)) (r : ℕ)
    → lookup key (remove id rooms) ≡ some r
    → lookup key rooms ≡ some r
lookup-remove-some id key rooms r e = ground (arith, lookup-remove id key rooms)

module _ (s : Server) (inv : Inv s) where
  open inv use {name, registered, stands, held, open_until, bounded}

  pub create-Inv : (id : String) → (i : Inv (create id s)) × (i.name s.next ≡ id)
  unfolding lookup
  create-Inv id = (
    record {
      name = λ r. if s.next == r then id else name r;
      registered = λ key r e. ground (arith, registered key r, eq_iff id key);
      stands = λ role r p.
          update-cases (λ q t. slot role t ≡ some p → Fits role q (s.conns p)) s.heap s.next
            new_room r (no_slot role p) (stands role r p);
      held = λ p r e. ground (arith, held p r e);
      open_until = open_until;
      bounded = bounded;
    },
    ground arith,
  )
    where
      no_slot : (role : Role) (p : ℕ) → slot role new_room ≡ some p → Fits role s.next (s.conns p)
      no_slot device p e = cc
      no_slot client p e = cc

  delete-Inv : (id : String) → Inv (record s { rooms = remove id s.rooms })
  delete-Inv id = record {
    name = name;
    registered = λ key q e. registered key q (lookup-remove-some id key s.rooms q e);
    stands = stands;
    held = held;
    open_until = open_until;
    bounded = bounded;
  }

  delete_at-Inv : (o : Option ℕ) (id : String) → Inv (delete_at o id s)
  delete_at-Inv none id = inv
  delete_at-Inv (some r) id =
      elim (is_empty (s.heap r))
        as (λ b. Inv (if b then (record s { rooms = remove id s.rooms }) else s)) [
          | true ↦ delete-Inv id
          | false ↦ inv
        ]

  pub try_delete-Inv : (id : String) → Inv (try_delete id s)
  unfolding try_delete
  try_delete-Inv id = delete_at-Inv (lookup id s.rooms) id

  -- The room that `getOrCreate` gives is one of the heap, and is the room of that name.
  pub enter-Inv :
      (id : String) (o : Option ℕ)
      → lookup id s.rooms ≡ o
      → let (t, r) = enter o id s in
        (i : Inv t) × (r < t.next) × (i.name r ≡ id) × (t.conns ≡ s.conns)
  enter-Inv id none e = ((create-Inv id).0, omega arith, (create-Inv id).1, refl)
  enter-Inv id (some r) e = (inv, (registered id r e).0, (registered id r e).1, refl)

pub try_delete-conns : (id : String) (s : Server) → (try_delete id s).conns ≡ s.conns
unfolding try_delete
try_delete-conns id s = ground arith
