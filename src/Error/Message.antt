-- ===== src/Error/Message.antt =====
-- Adding a message to an error object: error_add_v and its callers.
use libusbp.Base.{
  ℕ, ◌+◌, ◌≡◌, refl, ap, ◌∙◌, inl, inr, false, Option, none, some, List, ◌++◌, arith,
}
use libusbp.Heap.{Heap, Blocks, block?}
use libusbp.Heap.Moves.{Owned, malloc-Moves, free-Moves}
use libusbp.Heap.Returns
use libusbp.Heap.Returns.{Returns, returns}
use libusbp.Error.Ownership.{
  IsValid, IsValid?, Makes, message_of, all_codes, make_mutable-Makes, lost-Makes, Makes-trans,
}
use libusbp.Error.{
  Error, ErrorPtr, Text, chars_of, codes_of, owned, owned?, add_message, put_message, separator,
  replace_message, error_add_v,
}

abbrev pub joined : List ℕ → List ℕ → List ℕ
joined outer inner = outer ++ (separator outer inner ++ inner)

replace_message-Makes :
    (e : Error) (outer : List ℕ) (m : Option ℕ) (t : Option Text) (h : Heap)
    → e.do_not_free ≡ false
    → e.message ≡ t
    → IsValid e
    → Owned (λ a. owned e a + block? m a) h
    → Returns
        (Makes (λ a. owned e a + block? m a) (joined outer (chars_of t)) (codes_of e.code_array) h)
        (replace_message e outer m t h)
unfolding replace_message
replace_message-Makes e outer m none h s q v o = absurd (ground (arith, v.has_message))
replace_message-Makes e outer none (some t) h s q v o =
    Returns.mono (lost-Makes e _ _ h (λ a. omega (arith, o a))) λ r g m. record {
      moves = record { live = λ a. omega (arith, m.moves.live a); same = m.moves.same };
      valid = m.valid;
      holds = m.holds;
    }
replace_message-Makes e outer (some m) (some t) h s q v o =
    Returns.bind (free-Moves (some t.at) h (λ a. ground (arith, o a))) λ _ g f. returns (record {
      moves = record { live = λ a. ground (arith, f.live a); same = f.same };
      valid = record { counted = v.counted; has_message = ground arith };
      holds = inr (s, refl, refl);
    })

put_message-Makes :
    (e : Error) (outer : List ℕ) (p : Option ℕ) (h : Heap)
    → e.do_not_free ≡ false
    → IsValid e
    → Owned (λ a. owned e a + block? p a) h
    → Returns
        (Makes
          (λ a. owned e a + block? p a)
          (joined outer (chars_of e.message))
          (codes_of e.code_array)
          h)
        (put_message e outer p h)
unfolding put_message
put_message-Makes e outer p h s v o = replace_message-Makes e outer p e.message h s refl v o

add_message-Makes :
    (e : Error) (outer chars codes : List ℕ) {old : Blocks} {h g : Heap}
    → Owned old h
    → Makes old chars codes h e g
    → Returns (Makes old (joined outer chars) codes h) (add_message e outer g)
unfolding add_message
add_message-Makes e outer chars codes {old} {h} {g} o m = elim m.holds [
  | inl static ↦
      simp (ap (λ x. x.do_not_free) static)
        (returns (record { moves = m.moves; valid = m.valid; holds = inl static }))
  | inr (s, c, k) ↦ simp s (
      rw (← c, ← k)
        (Returns.bind (malloc-Moves g) λ p h₁ m₁.
          Makes-trans
            (record {
              live = λ a. omega (arith, m.moves.live a, m₁.live a);
              same = m₁.same ∙ m.moves.same;
            })
            (put_message-Makes e outer p h₁ s m.valid
              (λ a. omega (arith, o a, m.moves.live a, m₁.live a)))))
]

-- What `error_add_v` returns where it is given a message, and where it is not.
abbrev pub AddsMessage : ErrorPtr → Option (List ℕ) → Heap → ErrorPtr → Heap → Type 0
AddsMessage e none h r g = (r ≡ e) × (g ≡ h)
AddsMessage e (some outer) h none g = ⊥
AddsMessage e (some outer) h (some r) g =
    Makes (owned? e) (joined outer (message_of e)) (all_codes e) h r g

-- From any valid error, or from NULL, `error_add_v` runs without undefined behaviour, whichever
-- requests for memory fail. It returns the error as it is where the format is NULL. Otherwise it
-- returns an error, never NULL, that takes over or gives back all the memory of the old one: with
-- the new message before the old, two spaces between them if neither is empty, and with the
-- old codes; or the static error that reports a lack of memory.
pub error_add_v-AddsMessage :
    (e : ErrorPtr) (format : Option (List ℕ)) (h : Heap)
    → IsValid? e
    → Owned (owned? e) h
    → Returns (AddsMessage e format h) (error_add_v e format h)
unfolding error_add_v
error_add_v-AddsMessage e none h v o = returns (refl, refl)
error_add_v-AddsMessage e (some outer) h v o =
    Returns.bind (make_mutable-Makes e h v)
      λ e₁ g m. Returns.bind (add_message-Makes e₁ outer _ _ o m) λ r k n. returns n
