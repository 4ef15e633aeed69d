-- ===== src/Common/Outcome.antt =====
-- What a Rust call ends in. `panicked` is an index or a slice out of range, or a division by zero;
-- `out_of_fuel` is no Rust outcome: a loop of the model has met its bound.
use Prim.Native.Nat.{ℕ, ◌+◌, ◌-◌, ◌≤◌, ◌<◌}
use mathlib.Core.Path.{◌≡◌, refl, subst}
use mathlib.Core.Bool.{Bool, true, false, ◌&&◌}
use mathlib.Core.Option.{none, some}
use mathlib.Core.List.{List, ◌++◌}
use native.Mathlib.Omega.{arith}
use any_kvm.Common.Tests.{leb, if◌then◌else◌}
use any_kvm.Common.Lists.{length, get_elem?, take, drop, get_elem?-some, get_elem?-append_right}

pub data Outcome (E A : Type 0) : Type 0 where
  ok : A → Outcome E A
  err : E → Outcome E A
  panicked : Outcome E A
  out_of_fuel : Outcome E A

infixl 5 ◌>>=◌ ◌>>◌
abbrev pub ◌>>=◌ : {E A B : Type 0} → Outcome E A → (A → Outcome E B) → Outcome E B
ok a >>= f = f a
err e >>= f = err e
panicked >>= f = panicked
out_of_fuel >>= f = out_of_fuel

abbrev pub ◌>>◌ : {E B : Type 0} → Outcome E (Unit {0}) → Outcome E B → Outcome E B
m >> k = m >>= λ _. k

-- `if !b { bail!(e) }`
abbrev pub guard : {E : Type 0} → Bool → E → Outcome E (Unit {0})
guard true e = ok tt
guard false e = err e

-- The call returns: a value or an error, and no panic.
abbrev pub Returns : {E A : Type 0} → Outcome E A → Type 0
Returns (ok a) = Unit
Returns (err e) = Unit
Returns panicked = ⊥
Returns out_of_fuel = ⊥

-- `xs[i]`
unfoldable pub at : {E A : Type 0} → List A → ℕ → Outcome E A
at xs i = elim (get_elem? xs i) [ some a ↦ ok a | none ↦ panicked ]

-- `&xs[lo..hi]`
unfoldable pub slice : {E A : Type 0} → List A → ℕ → ℕ → Outcome E (List A)
slice xs lo hi =
    if leb lo hi && leb hi (length xs) then ok (take (hi - lo) (drop lo xs)) else panicked

pub at-get_elem? :
    {E A : Type 0} (xs : List A) (i : ℕ) {a : A} → get_elem? xs i ≡ some a → at {E = E} xs i ≡ ok a
unfolding at
at-get_elem? xs i e = rw (e, at)

pub at-ok :
    {E A : Type 0} (xs : List A) (i : ℕ)
    → i < length xs
    → (a : A) × (at {E = E} xs i ≡ ok a) × (get_elem? xs i ≡ some a)
at-ok xs i h = let (a, e) = get_elem?-some xs i h in (a, at-get_elem? xs i e, e)

pub slice-ok :
    {E A : Type 0} (xs : List A) (lo hi : ℕ)
    → lo ≤ hi
    → hi ≤ length xs
    → slice {E = E} xs lo hi ≡ ok (take (hi - lo) (drop lo xs))
unfolding slice
slice-ok xs lo hi h k = ground arith

-- The `i`-th element behind a prefix.
pub at-append_right :
    {E A : Type 0} (xs ys : List A) (i : ℕ) → at {E = E} (xs ++ ys) (length xs + i) ≡ at ys i
unfolding at
at-append_right xs ys i = rw (get_elem?-append_right xs ys i, at)

-- The call returns a value, and the value satisfies `P`.
abbrev pub Succeeds : {E A : Type 0} → Outcome E A → (A → Type 0) → Type 0
Succeeds (ok a) P = P a
Succeeds (err e) P = ⊥
Succeeds panicked P = ⊥
Succeeds out_of_fuel P = ⊥

pub Succeeds-bind :
    {E A B : Type 0} (P : A → Type 0) (Q : B → Type 0) (m : Outcome E A) (f : A → Outcome E B)
    → Succeeds m P
    → ((a : A) → P a → Succeeds (f a) Q)
    → Succeeds (m >>= f) Q
Succeeds-bind P Q (ok a) f h k = k a h
Succeeds-bind P Q (err e) f h k = absurd h
Succeeds-bind P Q panicked f h k = absurd h
Succeeds-bind P Q out_of_fuel f h k = absurd h

pub Succeeds-ok :
    {E A : Type 0} (P : A → Type 0) (m : Outcome E A) → Succeeds m P → (a : A) × (m ≡ ok a) × P a
Succeeds-ok P (ok a) h = (a, refl, h)
Succeeds-ok P (err e) h = absurd h
Succeeds-ok P panicked h = absurd h
Succeeds-ok P out_of_fuel h = absurd h

pub Succeeds-value :
    {E A : Type 0} (P : A → Type 0) {m : Outcome E A} {a : A} → Succeeds m P → m ≡ ok a → P a
Succeeds-value P {m} {a} h e = subst (λ n. Succeeds n P) e h

pub Succeeds-mono :
    {E A : Type 0} (P Q : A → Type 0) (m : Outcome E A)
    → ((a : A) → P a → Q a)
    → Succeeds m P
    → Succeeds m Q
Succeeds-mono P Q (ok a) k h = k a h
Succeeds-mono P Q (err e) k h = absurd h
Succeeds-mono P Q panicked k h = absurd h
Succeeds-mono P Q out_of_fuel k h = absurd h

-- The call returns, and if it returns a value, the value satisfies `P`.
abbrev pub Ensures : {E A : Type 0} → Outcome E A → (A → Type 0) → Type 0
Ensures (ok a) P = P a
Ensures (err e) P = Unit
Ensures panicked P = ⊥
Ensures out_of_fuel P = ⊥

pub Ensures-bind :
    {E A B : Type 0} (P : A → Type 0) (Q : B → Type 0) (m : Outcome E A) (f : A → Outcome E B)
    → Ensures m P
    → ((a : A) → P a → Ensures (f a) Q)
    → Ensures (m >>= f) Q
Ensures-bind P Q (ok a) f h k = k a h
Ensures-bind P Q (err e) f h k = tt
Ensures-bind P Q panicked f h k = absurd h
Ensures-bind P Q out_of_fuel f h k = absurd h

pub Ensures-Returns : {E A : Type 0} (P : A → Type 0) (m : Outcome E A) → Ensures m P → Returns m
Ensures-Returns P (ok a) h = tt
Ensures-Returns P (err e) h = tt
Ensures-Returns P panicked h = absurd h
Ensures-Returns P out_of_fuel h = absurd h

pub at-Ensures :
    (E : Type 0) {A : Type 0} (xs : List A) (i : ℕ)
    → i < length xs
    → Ensures (at {E = E} xs i) (λ _. Unit {0})
at-Ensures E xs i h = let (a, e, _) = at-ok {E = E} xs i h in rw e tt

pub slice-Ensures :
    (E : Type 0) {A : Type 0} (xs : List A) (lo hi : ℕ)
    → lo ≤ hi
    → hi ≤ length xs
    → Ensures (slice {E = E} xs lo hi) (λ _. Unit {0})
slice-Ensures E xs lo hi h k = rw (slice-ok {E = E} xs lo hi h k) tt
