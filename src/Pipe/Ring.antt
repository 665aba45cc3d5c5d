-- ===== src/Pipe/Ring.antt =====
-- The ring of slots: where the next submission goes, and which slots are pending.
use libusbp.Base.{
  ℕ, zero, suc, ◌+◌, ◌-◌, ◌<◌, ◌≡◌, ◌≢◌, refl, ap, ◌∙◌, List, [], ◌∷◌, ◌++◌, arith, ltb, leb,
  length, if◌then◌else◌,
}
use libusbp.Pipe.{increment_and_wrap_size}

-- Slot `k` places behind `from`, for `k` at most the number of slots.
abbrev pub wrap : (count sum : ℕ) → ℕ
wrap count sum = if ltb sum count then sum else sum - count

-- How many places slot `i` is behind slot `from`.
abbrev pub offset : (from count i : ℕ) → ℕ
offset from count i = if leb from i then i - from else i + count - from

pub wrap-lt : (count from k : ℕ) → from < count → k < count → wrap count (from + k) < count
wrap-lt count from k f l = ground arith

pub wrap-increment :
    (count from k : ℕ)
    → from < count
    → k < count
    → increment_and_wrap_size (wrap count (from + k)) count ≡ wrap count (from + (k + 1))
wrap-increment count from k f l = ground arith

pub wrap-increment_from :
    (count from k : ℕ)
    → from < count
    → k < count
    → wrap count (increment_and_wrap_size from count + k) ≡ wrap count (from + (k + 1))
wrap-increment_from count from k f l = ground arith

pub increment-lt : (count n : ℕ) → n < count → increment_and_wrap_size n count < count
increment-lt count n l = ground arith

pub offset-wrap :
    (count from k : ℕ) → from < count → k < count → offset from count (wrap count (from + k)) ≡ k
offset-wrap count from k f l = ground arith

-- Every other slot is one place nearer once the first has left the queue.
pub offset-increment :
    (count from i : ℕ)
    → from < count
    → i < count
    → i ≢ from
    → offset from count i ≡ offset (increment_and_wrap_size from count) count i + 1
offset-increment count from i f l n = ground arith

-- The pending slots, the one that finishes next first.
pub slots : (count from pending : ℕ) → List ℕ
slots count from zero = []
slots count from (suc k) = from ∷ slots count (increment_and_wrap_size from count) k

-- A submission puts its slot behind the pending ones.
pub slots-suc :
    (count from k : ℕ)
    → from < count
    → k < count
    → slots count from (suc k) ≡ slots count from k ++ (wrap count (from + k) ∷ [])
unfolding slots
slots-suc count from zero f l = ap (λ x. x ∷ []) (ground arith)
slots-suc count from (suc k) f l = ap (◌∷◌ from) (
    slots-suc count (increment_and_wrap_size from count) k (increment-lt count from f) (omega arith)
    ∙ ap (λ x. slots count (increment_and_wrap_size from count) k ++ (x ∷ []))
        (wrap-increment_from count from k f (omega arith)
          ∙ ap (λ x. wrap count (from + x)) (omega arith)))

pub length-slots : (count from k : ℕ) → length (slots count from k) ≡ k
unfolding slots
length-slots count from zero = refl
length-slots count from (suc k) = ap suc (length-slots count (increment_and_wrap_size from count) k)

pub slots-cons :
    (count from k : ℕ)
    → slots count from (suc k) ≡ from ∷ slots count (increment_and_wrap_size from count) k
unfolding slots
slots-cons count from k = refl
