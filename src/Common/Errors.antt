-- ===== src/Common/Errors.antt =====
-- Errors that are texts, as `anyhow` shows them, and outcomes that are never errors.
use mathlib.Core.List.{◌++◌}
use any_kvm.Common.Bytes.{Bytes, codes}
use any_kvm.Common.Outcome.{Outcome, ok, err, panicked, out_of_fuel, Succeeds, Ensures}

-- `.context(…)`: the text that `format!("{:#}", e)` makes of the error.
abbrev pub context : {A : Type 0} → Outcome Bytes A → Bytes → Outcome Bytes A
context (ok a) msg = ok a
context (err e) msg = err (msg ++ (codes ": " ++ e))
context panicked msg = panicked
context out_of_fuel msg = out_of_fuel

-- An outcome that is no error, among those that may be one.
abbrev pub lift : {E A : Type 0} → Outcome ⊥ A → Outcome E A
lift (ok a) = ok a
lift (err e) = absurd e
lift panicked = panicked
lift out_of_fuel = out_of_fuel

pub lift-Succeeds :
    (E : Type 0) {A : Type 0} (P : A → Type 0) (m : Outcome ⊥ A)
    → Succeeds m P
    → Succeeds (lift {E = E} m) P
lift-Succeeds E P (ok a) h = h
lift-Succeeds E P (err e) h = absurd e
lift-Succeeds E P panicked h = absurd h
lift-Succeeds E P out_of_fuel h = absurd h

pub Succeeds-Ensures :
    {E A : Type 0} (P : A → Type 0) (m : Outcome E A) → Succeeds m P → Ensures m P
Succeeds-Ensures P (ok a) h = h
Succeeds-Ensures P (err e) h = absurd h
Succeeds-Ensures P panicked h = absurd h
Succeeds-Ensures P out_of_fuel h = absurd h

pub lift-Ensures :
    (E : Type 0) {A : Type 0} (P : A → Type 0) (m : Outcome ⊥ A)
    → Succeeds m P
    → Ensures (lift {E = E} m) P
lift-Ensures E P m h = Succeeds-Ensures P (lift m) (lift-Succeeds E P m h)
