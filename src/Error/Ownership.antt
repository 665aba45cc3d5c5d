-- ===== src/Error/Ownership.antt =====
-- What the operations on error objects do to the heap, and what the objects hold afterwards.
use libusbp.Base.{
  ℕ, ◌+◌, ◌≡◌, refl, sym, ◌∙◌, ◌⊎◌, inl, inr, true, false, Bool-cases, ◌||◌, Option, none, some,
  List, [], arith, ◌==◌, length, is_some, take-length, nil_of_length,
}
use libusbp.Heap.{◌>>◌, M, pure, Heap, Blocks, no_blocks, block?, free}
use libusbp.Heap.Moves.{Moves, Owned, Moves-trans, malloc-Moves, free-Moves}
use libusbp.Heap.Returns
use libusbp.Heap.Returns.{Returns, returns}
use libusbp.Error.{
  Error, ErrorPtr, text_block, array_block, chars_of, codes_of, owned, owned?,
  error_masked_by_no_memory, error_free, copy_failed, copy_into, copy, error_make_mutable, or_blank,
  error_blank,
}

-- The count is the length of the array, and only a static error may lack a message.
pub record IsValid (e : Error) : Type 0 where
  pub counted : e.code_count ≡ length (codes_of e.code_array)
  pub has_message : (e.do_not_free || is_some e.message) ≡ true

abbrev pub IsValid? : ErrorPtr → Type 0
IsValid? none = Unit
IsValid? (some e) = IsValid e

-- Three blocks are freed, and `k` goes on.
free-three :
    {B : Type 0} {Q : B → Heap → Type 0} (k : M B) (p q r : Option ℕ) (h : Heap)
    → Owned (λ a. block? p a + block? q a + block? r a) h
    → ((g : Heap)
        → Moves h (λ a. block? p a + block? q a + block? r a) no_blocks g
        → Returns Q (k g))
    → Returns Q ((free p >> (free q >> (free r >> k))) h)
free-three k p q r h o next = Returns.bind (free-Moves p h (λ a. omega (arith, o a))) λ _ h₁ m₁.
    Returns.bind (free-Moves q h₁ (λ a. omega (arith, o a, m₁.live a))) λ _ h₂ m₂.
      Returns.bind (free-Moves r h₂ (λ a. omega (arith, o a, m₁.live a, m₂.live a))) λ _ g m₃.
        next g (record {
          live = λ a. omega (arith, m₁.live a, m₂.live a, m₃.live a);
          same = m₃.same ∙ m₂.same ∙ m₁.same;
        })

-- `libusbp_error_free` gives back all that the error owns, and nothing of a static error.
pub error_free-Moves :
    (e : ErrorPtr) (h : Heap)
    → Owned (owned? e) h
    → Returns (λ _ g. Moves h (owned? e) no_blocks g) (error_free e h)
unfolding error_free
error_free-Moves none h o = returns (record { live = λ a. omega arith; same = refl })
error_free-Moves (some e) h o = elim (Bool-cases e.do_not_free) [
  | inl s ↦ rw s (returns (record { live = λ a. omega arith; same = refl }))
  | inr s ↦ rw s (
      free-three (pure tt) (text_block e.message) (array_block e.code_array) (some e.at) h
        (λ a. ground (arith, o a))
        λ g m. returns (record { live = λ a. ground (arith, m.live a); same = m.same }))
]

-- From `h` to `g` an error took the place of the blocks `old`. It has this message and these codes,
-- or it is the static error that reports a lack of memory.
pub record Makes (old : Blocks) (chars codes : List ℕ) (h : Heap) (e : Error) (g : Heap)
    : Type 0 where
  pub moves : Moves h old (owned e) g
  pub valid : IsValid e
  pub holds :
      (e ≡ error_masked_by_no_memory)
      ⊎ ((e.do_not_free ≡ false) × (chars_of e.message ≡ chars) × (codes_of e.code_array ≡ codes))

abbrev pub IsCopy : Error → Heap → Error → Heap → Type 0
IsCopy src = Makes no_blocks (chars_of src.message) (codes_of src.code_array)

copy_failed-IsCopy :
    (src : Error) (p q r : Option ℕ) (h g : Heap)
    → Moves h no_blocks (λ a. block? p a + block? q a + block? r a) g
    → Returns (IsCopy src h) (copy_failed p q r g)
unfolding copy_failed
copy_failed-IsCopy src p q r h g m =
    free-three (pure error_masked_by_no_memory) p q r g (λ a. omega (arith, m.live a))
      λ k f. returns (record {
        moves = record { live = λ a. omega (arith, m.live a, f.live a); same = f.same ∙ m.same };
        valid = record { counted = refl; has_message = refl };
        holds = inl refl;
      })

copy_into-IsCopy :
    (src : Error) (n : ℕ) (p q r : Option ℕ) (h g : Heap)
    → n ≡ length (codes_of src.code_array)
    → Moves h no_blocks (λ a. block? p a + block? q a + block? r a) g
    → Returns (IsCopy src h) (copy_into src n p q r g)
unfolding copy_into
copy_into-IsCopy src n (some p) (some q) (some r) h g e m = returns (record {
  moves = record { live = λ a. omega (arith, m.live a); same = m.same };
  valid = record { counted = rw (e, take-length); has_message = refl };
  holds = inr (refl, refl, rw (e, take-length));
})
copy_into-IsCopy src n (some p) (some q) none h g e m = elim (Bool-cases (n == 0)) [
  | inl z ↦ rw z (
      returns (record {
        moves = record { live = λ a. omega (arith, m.live a); same = m.same };
        valid = record { counted = ground arith; has_message = refl };
        holds = inr (refl, refl, sym (nil_of_length _ (ground arith)));
      }))
  | inr z ↦ rw z (copy_failed-IsCopy src (some p) (some q) none h g m)
]
copy_into-IsCopy src n (some p) none r h g e m = copy_failed-IsCopy src (some p) none r h g m
copy_into-IsCopy src n none q r h g e m = copy_failed-IsCopy src none q r h g m

pub copy-IsCopy : (src : Error) (h : Heap) → IsValid src → Returns (IsCopy src h) (copy src h)
unfolding copy
copy-IsCopy src h v = Returns.bind (malloc-Moves h) λ p h₁ m₁.
    Returns.bind (malloc-Moves h₁) λ q h₂ m₂. Returns.bind (malloc-Moves h₂) λ r h₃ m₃.
      copy_into-IsCopy src _ p q r h h₃ (ground (arith, v.counted)) (record {
        live = λ a. omega (arith, m₁.live a, m₂.live a, m₃.live a);
        same = m₃.same ∙ m₂.same ∙ m₁.same;
      })

abbrev pub message_of : ErrorPtr → List ℕ
message_of none = []
message_of (some e) = chars_of e.message

abbrev pub all_codes : ErrorPtr → List ℕ
all_codes none = []
all_codes (some e) = codes_of e.code_array

-- What `error_make_mutable` is given has the same message and codes as what it returns. A static
-- error is copied, and any other is passed on as it is.
pub make_mutable-Makes :
    (e : ErrorPtr) (h : Heap)
    → IsValid? e
    → Returns (Makes (owned? e) (message_of e) (all_codes e) h) (error_make_mutable e h)
unfolding error_make_mutable or_blank
make_mutable-Makes none h v =
    copy-IsCopy error_blank h (record { counted = refl; has_message = refl })
make_mutable-Makes (some e) h v = elim (Bool-cases e.do_not_free) [
  | inl s ↦ simp s (
      Returns.mono (copy-IsCopy e h v) λ r g m. record {
        moves = record { live = λ a. ground (arith, m.moves.live a); same = m.moves.same };
        valid = m.valid;
        holds = m.holds;
      })
  | inr s ↦ simp s (
      returns (record {
        moves = record { live = λ a. refl; same = refl };
        valid = v;
        holds = inr (s, refl, refl);
      }))
]

-- Where memory runs out, the error is freed and the static one returned.
pub lost-Makes :
    (e : Error) (chars codes : List ℕ) (h : Heap)
    → Owned (owned e) h
    → Returns
        (Makes (owned e) chars codes h)
        ((error_free (some e) >> pure error_masked_by_no_memory) h)
lost-Makes e chars codes h o = Returns.bind (error_free-Moves (some e) h o) λ _ g m.
    returns (record {
      moves = record { live = λ a. omega (arith, m.live a); same = m.same };
      valid = record { counted = refl; has_message = refl };
      holds = inl refl;
    })

-- A step that continues what has been made so far.
pub Makes-trans :
    {old mid : Blocks} {chars codes : List ℕ} {h g : Heap} {r : Option (Error × Heap)}
    → Moves h old mid g
    → Returns (Makes mid chars codes g) r
    → Returns (Makes old chars codes h) r
Makes-trans m n =
    Returns.mono n
      λ r k p. record { moves = Moves-trans m p.moves; valid = p.valid; holds = p.holds }

pub Makes-Owned :
    {old : Blocks} {chars codes : List ℕ} {h g : Heap} {e : Error}
    → Owned old h
    → Makes old chars codes h e g
    → Owned (owned e) g
Makes-Owned o m a = omega (arith, o a, m.moves.live a)
