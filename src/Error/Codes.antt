-- ===== src/Error/Codes.antt =====
-- Adding a code to an error object, and looking for one.
use libusbp.Base.{
  ℕ, some-injective, Bool, ◌<◌, ◌/◌, ◌≡◌, refl, sym, ap, ◌∙◌, ◌⊎◌, inl, inr, true, false,
  Bool-cases, ◌||◌, Option, none, some, List, [], ◌∷◌, ◌++◌, arith, ◌==◌, length, take-length, take,
  length-append, leb, if◌then◌else◌,
}
use libusbp.Heap.{Heap, Blocks, block?}
use libusbp.Heap.Moves.{Moves, Owned, realloc-Moves, kept}
use libusbp.Heap.Returns
use libusbp.Heap.Returns.{Returns, returns}
use libusbp.Error.Ownership.{
  IsValid, IsValid?, Makes, message_of, all_codes, make_mutable-Makes, lost-Makes, Makes-trans,
  Makes-Owned,
}
use libusbp.Error.{
  Error, ErrorPtr, array_block, chars_of, codes_of, owned, owned?, put_code, size_max, append_code,
  error_add_code, has_code_loop, error_has_code, error_memory,
}

take-valid :
    (e : Error) → IsValid e → take e.code_count (codes_of e.code_array) ≡ codes_of e.code_array
take-valid e v = ap (λ n. take n (codes_of e.code_array)) v.counted ∙ take-length _

put_code-Makes :
    (e : Error) (code : ℕ) (p : Option ℕ) {h : Heap} (g : Heap)
    → e.do_not_free ≡ false
    → IsValid e
    → Owned (owned e) h
    → Moves h (block? (array_block e.code_array)) (kept (array_block e.code_array) p) g
    → Returns
        (Makes (owned e) (chars_of e.message) (codes_of e.code_array ++ (code ∷ [])) h)
        (put_code e code p g)
unfolding put_code
put_code-Makes e code none {h} g s v o m =
    Returns.mono (lost-Makes e _ _ g (λ a. omega (arith, o a, m.live a))) λ r k n. record {
      moves = record {
        live = λ a. omega (arith, m.live a, n.moves.live a);
        same = n.moves.same ∙ m.same;
      };
      valid = n.valid;
      holds = n.holds;
    }
put_code-Makes e code (some p) g s v o m = returns (record {
  moves = record { live = λ a. ground (arith, m.live a); same = m.same };
  valid = record {
    counted =
        rw (take-valid e v)
          (omega (arith, v.counted, length-append (codes_of e.code_array) (code ∷ [])));
    has_message = v.has_message;
  };
  holds = inr (s, refl, ap (λ cs. cs ++ (code ∷ [])) (take-valid e v));
})

-- The codes with one more, unless their number has reached what fits in the address space.
abbrev pub appended : List ℕ → ℕ → List ℕ
appended codes code = if leb (size_max / 4) (length codes) then codes else codes ++ (code ∷ [])

append_code-Makes :
    (e : Error) (code : ℕ) (chars codes : List ℕ) {old : Blocks} {h g : Heap}
    → Owned old h
    → Makes old chars codes h e g
    → Returns (Makes old chars (appended codes code) h) (append_code e code g)
unfolding append_code
append_code-Makes e code chars codes {old} {h} {g} o m = elim m.holds [
  | inl static ↦
      simp (ap (λ x. x.do_not_free) static)
        (returns (record { moves = m.moves; valid = m.valid; holds = inl static }))
  | inr (s, c, k) ↦
      simp (s, m.valid.counted, k)
        (elim (Bool-cases (leb (size_max / 4) (length codes))) [
          | inl full ↦
              rw full (returns (record { moves = m.moves; valid = m.valid; holds = inr (s, c, k) }))
          | inr room ↦
              rw (room, ← c, ← k)
                (Returns.bind
                  (realloc-Moves (array_block e.code_array) g
                    (λ a. ground (arith, Makes-Owned o m a)))
                  λ p h₁ m₁.
                    Makes-trans m.moves (put_code-Makes e code p h₁ s m.valid (Makes-Owned o m) m₁))
        ])
]

abbrev pub AddsCode : ErrorPtr → ℕ → Heap → ErrorPtr → Heap → Type 0
AddsCode e code h none g = ⊥
AddsCode e code h (some r) g = Makes (owned? e) (message_of e) (appended (all_codes e) code) h r g

-- From any valid error, or from NULL, `error_add_code` runs without undefined behaviour, whichever
-- requests for memory fail, and returns an error, never NULL, that takes over or gives back all the
-- memory of the old one: with the old message, and the new code behind the old codes unless there
-- is no room for it; or the static error that reports a lack of memory.
pub error_add_code-AddsCode :
    (e : ErrorPtr) (code : ℕ) (h : Heap)
    → IsValid? e
    → Owned (owned? e) h
    → Returns (AddsCode e code h) (error_add_code e code h)
unfolding error_add_code
error_add_code-AddsCode e code h v o =
    Returns.bind (make_mutable-Makes e h v)
      λ e₁ g m. Returns.bind (append_code-Makes e₁ code _ _ o m) λ r k n. returns n

abbrev pub contains : List ℕ → ℕ → Bool
contains [] code = false
contains (c ∷ codes) code = (c == code) || contains codes code

pub contains-append :
    (xs ys : List ℕ) (c : ℕ) → contains (xs ++ ys) c ≡ (contains xs c || contains ys c)
contains-append [] ys c = refl
contains-append (x ∷ xs) ys c = ground (arith, contains-append xs ys c)

has_code_loop-contains :
    (codes : List ℕ) (code : ℕ)
    → has_code_loop (length codes) codes code ≡ some (contains codes code)
unfolding has_code_loop
has_code_loop-contains [] code = refl
has_code_loop-contains (c ∷ codes) code = ground (arith, has_code_loop-contains codes code)

-- On a valid error, or NULL, `libusbp_error_has_code` never reads past the array, and says whether
-- the code is among those that were added.
pub has_code-contains :
    (e : ErrorPtr) (code : ℕ)
    → IsValid? e
    → error_has_code e code ≡ some (contains (all_codes e) code)
unfolding error_has_code
has_code-contains none code v = refl
has_code-contains (some e) code v =
    ap (λ n. has_code_loop n (codes_of e.code_array) code) v.counted
    ∙ has_code_loop-contains (codes_of e.code_array) code

abbrev pub HasCode : ErrorPtr → ℕ → Type 0
HasCode e code = error_has_code e code ≡ some true

contains-appended :
    (codes : List ℕ) (code c : ℕ)
    → length codes < size_max / 4
    → contains (appended codes code) c ≡ (contains codes c || (code == c))
contains-appended codes code c room = ground (arith, contains-append codes (code ∷ []) c)

-- What `libusbp_error_has_code` says of the new error, where it said `old` of the one before.
abbrev pub Extends : (code c : ℕ) → (old : Bool) → ErrorPtr → Type 0
Extends code c old r = (error_has_code r c ≡ some (old || (code == c))) ⊎ HasCode r error_memory

AddsCode-Extends :
    (e r : ErrorPtr) (code c : ℕ) (old : Bool) (h g : Heap)
    → length (all_codes e) < size_max / 4
    → contains (all_codes e) c ≡ old
    → AddsCode e code h r g
    → Extends code c old r
AddsCode-Extends e none code c old h g room q m = absurd m
AddsCode-Extends e (some r) code c old h g room q m = elim m.holds [
  | inl masked ↦ inr (has_code-contains (some r) error_memory m.valid ∙ ap some (rw masked))
  | inr (s, chars, k) ↦ inl (
      has_code-contains (some r) c m.valid
      ∙ ap some (
          ap (λ cs. contains cs c) k
          ∙ contains-appended (all_codes e) code c room
          ∙ ap (λ b. b || (code == c)) q))
]

-- For any valid error or NULL that has fewer codes than fit in the address space, and for any code
-- `c`: after `error_add_code`, `libusbp_error_has_code` says that the error has `c` exactly where `c`
-- is the new code or it said so before; or the error has the code for a lack of memory.
pub add_code-Extends :
    (e : ErrorPtr) (code c : ℕ) (old : Bool) (h : Heap)
    → IsValid? e
    → Owned (owned? e) h
    → length (all_codes e) < size_max / 4
    → error_has_code e c ≡ some old
    → Returns (λ r g. Extends code c old r) (error_add_code e code h)
add_code-Extends e code c old h v o room said =
    Returns.mono (error_add_code-AddsCode e code h v o) λ r g m.
      AddsCode-Extends e r code c old h g room
        (some-injective _ _ (sym (has_code-contains e c v) ∙ said)) m
