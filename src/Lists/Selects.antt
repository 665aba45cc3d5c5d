-- ===== src/Lists/Selects.antt =====
-- Which devices a loop over an enumeration puts into its list.
use libusbp.Base.{ℕ, ◌≡◌, ap, ◌∙◌, List, [], ◌∷◌, ◌++◌, append_assoc, arith, length}
use libusbp.Heap.{Heap, Blocks}
use libusbp.Heap.Moves.{Moves, Short, Short-before}
use libusbp.Lists.{ListOf, owned}

-- The devices that the items describe, in the order of the items. An item is skipped only where it
-- is not usable or a request for memory fails.
pub data Selects {A D : Type 0} (Describes : A → D → Type 0) (IsUsable : A → Type 0) (h : Heap)
    : List A → List D → Type 0 where
  done : Selects Describes IsUsable h [] []
  take :
      {item : A} {d : D} {items : List A} {ds : List D}
      → Describes item d
      → Selects Describes IsUsable h items ds
      → Selects Describes IsUsable h (item ∷ items) (d ∷ ds)
  skip :
      {item : A} {items : List A} {ds : List D}
      → (IsUsable item → Short h)
      → Selects Describes IsUsable h items ds
      → Selects Describes IsUsable h (item ∷ items) ds

module _ {A D : Type 0} {Describes : A → D → Type 0} {IsUsable : A → Type 0} where
  pub Selects-before :
      {h g : Heap} {old new : Blocks} {items : List A} {ds : List D}
      → Moves h old new g
      → Selects Describes IsUsable g items ds
      → Selects Describes IsUsable h items ds
  Selects-before m done = done
  Selects-before m (take p s) = take p (Selects-before m s)
  Selects-before m (skip p s) = skip (λ u. Short-before m (p u)) (Selects-before m s)

  Selects-append :
      {h : Heap} {items items' : List A} {ds ds' : List D}
      → Selects Describes IsUsable h items ds
      → Selects Describes IsUsable h items' ds'
      → Selects Describes IsUsable h (items ++ items') (ds ++ ds')
  Selects-append done t = t
  Selects-append (take p s) t = take p (Selects-append s t)
  Selects-append (skip p s) t = skip p (Selects-append s t)

-- The list is counted, and has such devices of the items behind the others.
abbrev pub Extended :
    {A D : Type 0}
    → (A → D → Type 0)
    → (A → Type 0)
    → (D → Blocks)
    → List A
    → ListOf D
    → Heap
    → ListOf D
    → ℕ
    → Heap
    → Type 0
Extended {D = D} Describes IsUsable own items l h l' count g =
    (count ≡ length l'.devices)
    × (((new : List D) × (l'.devices ≡ l.devices ++ new) × Selects Describes IsUsable h items new)
        × Moves h (owned own l) (owned own l') g)

module _ {A D : Type 0} {Describes : A → D → Type 0} {IsUsable : A → Type 0}
    (own : D → Blocks) where
  pub Extended-then :
      (items items' : List A) (l l' l'' : ListOf D) {count count' : ℕ} {h g k : Heap}
      → Extended Describes IsUsable own items l h l' count g
      → Extended Describes IsUsable own items' l' g l'' count' k
      → Extended Describes IsUsable own (items ++ items') l h l'' count' k
  Extended-then items items' l l' l'' (c, ((new, q, s), m)) (c', ((new', q', s'), m')) = (
    c',
    (
      (
        new ++ new',
        q' ∙ ap (λ ds. ds ++ new') q ∙ append_assoc l.devices new new',
        Selects-append s (Selects-before m s'),
      ),
      record { live = λ a. omega (arith, m.live a, m'.live a); same = m'.same ∙ m.same },
    ),
  )
