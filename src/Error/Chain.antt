-- ===== src/Error/Chain.antt =====
-- Errors that are built in several steps: create one, add messages and codes, pass it on.
use libusbp.Base.{
  ℕ, ◌≡◌, refl, ap, ◌∙◌, ◌⊎◌, inl, inr, true, none, some, List, [], ◌∷◌, append-nil, arith,
}
use libusbp.Heap.{Heap, Blocks, no_blocks}
use libusbp.Heap.Moves.{Moves, Owned, Moves-trans}
use libusbp.Heap.Returns
use libusbp.Heap.Returns.{Returns, returns}
use libusbp.Error.{
  Error, ErrorPtr, chars_of, codes_of, owned, error_memory, error_add_v, error_add_code, error_add,
  error_create, error_no_memory,
}
use libusbp.Error.Ownership.{IsValid, Makes}
use libusbp.Error.Message.{AddsMessage, error_add_v-AddsMessage, joined}
use libusbp.Error.Codes.{AddsCode, error_add_code-AddsCode, appended, contains, contains-append}

abbrev pub HasMemoryCode : Error → Type 0
HasMemoryCode e = contains (codes_of e.code_array) error_memory ≡ true

-- From `h` to `g` an error, not NULL, took the place of the blocks `old`. It has this message and
-- these codes, or memory ran out on the way and it has the code for that.
pub record Carried (old : Blocks) (chars codes : List ℕ) (h : Heap) (e : Error) (g : Heap)
    : Type 0 where
  pub moves : Moves h old (owned e) g
  pub valid : IsValid e
  pub tells : ((chars_of e.message ≡ chars) × (codes_of e.code_array ≡ codes)) ⊎ HasMemoryCode e

abbrev pub Carries : Blocks → List ℕ → List ℕ → Heap → ErrorPtr → Heap → Type 0
Carries old chars codes h none g = ⊥
Carries old chars codes h (some e) g = Carried old chars codes h e g

contains-appended_old :
    (codes : List ℕ) (code c : ℕ)
    → contains codes c ≡ true
    → contains (appended codes code) c ≡ true
contains-appended_old codes code c h = ground (arith, contains-append codes (code ∷ []) c)

-- One step: what it makes of an error is told from what the error before it tells.
step-Carried :
    {old : Blocks} {chars codes chars' codes' : List ℕ} {h g k : Heap} {e r : Error}
    → Carried old chars codes h e g
    → Makes (owned e) chars' codes' g r k
    → (chars'' codes'' : List ℕ)
    → (chars_of e.message ≡ chars
        → codes_of e.code_array ≡ codes
        → (chars' ≡ chars'') × (codes' ≡ codes''))
    → (HasMemoryCode e → contains codes' error_memory ≡ true)
    → Carried old chars'' codes'' h r k
step-Carried {e} c m chars'' codes'' same memory = record {
  moves = Moves-trans c.moves m.moves;
  valid = m.valid;
  tells = elim m.holds [
    | inl masked ↦ inr (rw masked)
    | inr (s, p, q) ↦ elim c.tells [
      | inl (t, u) ↦ inl (p ∙ (same t u).0, q ∙ (same t u).1)
      | inr t ↦ inr (ap (λ cs. contains cs error_memory) q ∙ memory t)
    ]
  ];
}

pub error_add_v-Carries :
    (e : ErrorPtr) (outer chars codes : List ℕ) {old : Blocks} {h : Heap} (g : Heap)
    → Owned old h
    → Carries old chars codes h e g
    → Returns (Carries old (joined outer chars) codes h) (error_add_v e (some outer) g)
error_add_v-Carries none outer chars codes g o c = absurd c
error_add_v-Carries (some e) outer chars codes {old} {h} g o c =
    Returns.mono
      (error_add_v-AddsMessage (some e) (some outer) g c.valid
        (λ a. omega (arith, o a, c.moves.live a)))
      (λ r k m. go r k m)
  where
    go :
        (r : ErrorPtr) (k : Heap)
        → AddsMessage (some e) (some outer) g r k
        → Carries old (joined outer chars) codes h r k
    go none k m = absurd m
    go (some r) k m = step-Carried c m _ _ (λ t u. (ap (joined outer) t, u)) (λ t. t)

pub error_add-Carries :
    (e : ErrorPtr) (outer chars codes : List ℕ) {old : Blocks} {h : Heap} (g : Heap)
    → Owned old h
    → Carries old chars codes h e g
    → Returns (Carries old (joined outer chars) codes h) (error_add e outer g)
unfolding error_add
error_add-Carries e outer chars codes g o c = error_add_v-Carries e outer chars codes g o c

pub error_add_code-Carries :
    (e : ErrorPtr) (code : ℕ) (chars codes : List ℕ) {old : Blocks} {h : Heap} (g : Heap)
    → Owned old h
    → Carries old chars codes h e g
    → Returns (Carries old chars (appended codes code) h) (error_add_code e code g)
error_add_code-Carries none code chars codes g o c = absurd c
error_add_code-Carries (some e) code chars codes {old} {h} g o c =
    Returns.mono
      (error_add_code-AddsCode (some e) code g c.valid (λ a. omega (arith, o a, c.moves.live a)))
      (λ r k m. go r k m)
  where
    go :
        (r : ErrorPtr) (k : Heap)
        → AddsCode (some e) code g r k
        → Carries old chars (appended codes code) h r k
    go none k m = absurd m
    go (some r) k m =
        step-Carried c m _ _ (λ t u. (t, ap (λ cs. appended cs code) u))
          (contains-appended_old (codes_of e.code_array) code error_memory)

joined-nil : (outer : List ℕ) → joined outer [] ≡ outer
joined-nil [] = refl
joined-nil (x ∷ xs) = append-nil (x ∷ xs)

pub error_create-Carries :
    (message : List ℕ) (h : Heap)
    → Returns (Carries no_blocks message [] h) (error_create message h)
unfolding error_create
error_create-Carries message h =
    Returns.mono (error_add_v-AddsMessage none (some message) h tt (λ a. omega arith))
      (λ r k m. go r k m)
  where
    go :
        (r : ErrorPtr) (k : Heap)
        → AddsMessage none (some message) h r k
        → Carries no_blocks message [] h r k
    go none k m = absurd m
    go (some r) k m = record {
      moves = record { live = m.moves.live; same = m.moves.same };
      valid = m.valid;
      tells = elim m.holds [
        | inl masked ↦ inr (rw masked)
        | inr (s, p, q) ↦ inl (p ∙ joined-nil message, q)
      ];
    }

-- The static error for a lack of memory owns nothing.
pub no_memory-Carries :
    (chars codes : List ℕ) {h g : Heap} {old : Blocks}
    → Moves h old no_blocks g
    → Carries old chars codes h (some error_no_memory) g
no_memory-Carries chars codes m = record {
  moves = record { live = m.live; same = m.same };
  valid = record { counted = refl; has_message = refl };
  tells = inr refl;
}
