-- ===== src/Invocation/Acceptance.antt =====
-- Reasoning about `Accepted`: the steps of manager/src/CommandLine.cpp that end in a code or a value.
use improved_process_manager.Base.{Bool, true, false, if◌then◌else◌}
use improved_process_manager.Invocation.{Accepted, refused, accepted, ◌>>=◌}

-- What holds of what was read, where nothing was refused.
abbrev pub After : {A : Type 0} → (A → Type 0) → Accepted A → Type 0
After P (refused code error) = Unit
After P (accepted a) = P a

pub After->>= :
    {A B : Type 0} (P : A → Type 0) (Q : B → Type 0) (r : Accepted A) (f : A → Accepted B)
    → After P r
    → ((a : A) → P a → After Q (f a))
    → After Q (r >>= f)
After->>= P Q (refused code error) f h k = tt
After->>= P Q (accepted a) f h k = k a h

pub After-if :
    {A : Type 0} (P : A → Type 0) (b : Bool) (x y : Accepted A)
    → After P x
    → After P y
    → After P (if b then x else y)
After-if P true x y h k = h
After-if P false x y h k = k

pub After-cases :
    {A : Type 0} (P : A → Type 0) (b : Bool) (x y : Accepted A)
    → After P x
    → After P y
    → After P (elim b [ true ↦ x | false ↦ y ])
After-cases P true x y h k = h
After-cases P false x y h k = k
