-- ===== src/Common/Members.antt =====
-- Lists of things with a property, and what is in a list.
use mathlib.Core.Path.{refl}
use mathlib.Core.List.{List, [], ◌∷◌, ◌++◌, Memᴰ}
use any_kvm.Common.Lists.{All}

pub All-mono :
    {A : Type 0} (P Q : A → Type 0) (xs : List A) → ((a : A) → P a → Q a) → All P xs → All Q xs
All-mono P Q [] k h = tt
All-mono P Q (x ∷ xs) k h = (k x h.0, All-mono P Q xs k h.1)

pub All-append :
    {A : Type 0} (P : A → Type 0) (xs ys : List A) → All P xs → All P ys → All P (xs ++ ys)
All-append P [] ys h k = k
All-append P (x ∷ xs) ys h k = (h.0, All-append P xs ys h.1 k)

pub member_left : {A : Type 0} {a : A} {xs : List A} (ys : List A) → Memᴰ a xs → Memᴰ a (xs ++ ys)
member_left ys (Memᴰ.head e) = Memᴰ.head e
member_left ys (Memᴰ.tail m) = Memᴰ.tail (member_left ys m)

pub member_last : {A : Type 0} (a : A) (xs : List A) → Memᴰ a (xs ++ (a ∷ []))
member_last a [] = Memᴰ.head refl
member_last a (x ∷ xs) = Memᴰ.tail (member_last a xs)
