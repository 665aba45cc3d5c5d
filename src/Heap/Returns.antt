-- ===== src/Heap/Returns.antt =====
-- Total correctness of a command: no undefined behaviour, and a postcondition.
use libusbp.Base.{◌≡◌, subst, Option, some, some-injective}
use libusbp.Heap.Defs.{Heap, M, and_then}

pub data Returns {A : Type 0} (Post : A → Heap → Type 0) : Option (A × Heap) → Type 0 where
  returns : {result : A} {after : Heap} → Post result after → Returns Post (some (result, after))

-- A weaker postcondition.
pub mono :
    {A : Type 0} {Strong Weak : A → Heap → Type 0} {run : Option (A × Heap)}
    → Returns Strong run
    → ((result : A) (after : Heap) → Strong result after → Weak result after)
    → Returns Weak run
mono (returns post) weaken = returns (weaken _ _ post)

-- One command after another.
pub bind :
    {A B : Type 0} {Between : A → Heap → Type 0} {Post : B → Heap → Type 0}
    {first : Option (A × Heap)} {second : A → M B}
    → Returns Between first
    → ((result : A) (between : Heap)
        → Between result between
        → Returns Post (second result between))
    → Returns Post (and_then first second)
bind (returns between) rest = rest _ _ between

-- What a run that is known satisfies.
pub ensures :
    {A : Type 0} {Post : A → Heap → Type 0} {run : Option (A × Heap)} (result : A) (after : Heap)
    → Returns Post run
    → run ≡ some (result, after)
    → Post result after
ensures {Post} result after (returns post) known =
    subst (λ x. Post x.0 x.1) (some-injective _ _ known) post
