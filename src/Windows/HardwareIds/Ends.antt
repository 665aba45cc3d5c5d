-- ===== src/Windows/HardwareIds/Ends.antt =====
-- Hardware IDs that end with two zeros can be walked to their end.
use libusbp.Base.{
  ℕ, zero, suc, ◌+◌, ◌≡◌, refl, ap, ◌∙◌, Bool, true, false, Bool-cases, inl, inr, Option, none,
  some, some-injective, List, [], ◌∷◌, ◌++◌, arith, length, get_elem?, ◌==◌,
}
use libusbp.Windows.HardwareIds.{capital, capitalize, Ids, scan_ids, string_at, or_later, find_ids}

abbrev zeros : List ℕ
zeros = 0 ∷ 0 ∷ []

-- Two zeros at the end.
abbrev pub EndsWithZeros : List ℕ → Type 0
EndsWithZeros xs = (s : List ℕ) × (xs ≡ s ++ zeros)

pub ends_of_get_elem? :
    (xs : List ℕ) (n : ℕ)
    → length xs ≡ n + 2
    → get_elem? xs n ≡ some 0
    → get_elem? xs (suc n) ≡ some 0
    → EndsWithZeros xs
ends_of_get_elem? [] n l p q = absurd (omega (arith, l))
ends_of_get_elem? (x ∷ []) zero l p q = absurd (omega (arith, l))
ends_of_get_elem? (x ∷ y ∷ []) zero l p q =
    ([], ap (λ x. x ∷ y ∷ []) (some-injective _ _ p) ∙ ap (λ y. 0 ∷ y ∷ []) (some-injective _ _ q))
ends_of_get_elem? (x ∷ y ∷ z ∷ xs) zero l p q = absurd (omega (arith, l))
ends_of_get_elem? (x ∷ xs) (suc n) l p q =
    let (s, e) = ends_of_get_elem? xs n (omega (arith, l)) p q in (x ∷ s, ap (◌∷◌ x) e)

capitalize-zeros : (s : List ℕ) → capitalize (s ++ zeros) ≡ capitalize s ++ zeros
unfolding capitalize
capitalize-zeros [] = refl
capitalize-zeros (c ∷ s) = ap (◌∷◌ (capital c)) (capitalize-zeros s)

or_later-some :
    (now : Option Ids) (later : Option (Option Ids)) (r : Option Ids)
    → later ≡ some r
    → (t : Option Ids) × (or_later now later ≡ some t)
unfolding or_later
or_later-some none later r q = (r, q)
or_later-some (some ids) later r q = (some ids, refl)

find_ids-zeros : (b : Bool) (s : List ℕ) → (r : Option Ids) × (find_ids b (s ++ zeros) ≡ some r)
unfolding find_ids
find_ids-zeros true [] = (none, refl)
find_ids-zeros false [] = (none, refl)
find_ids-zeros true (c ∷ s) =
    let (r, q) = find_ids-zeros false s in
    elim (Bool-cases (c == 0)) [
      | inl z ↦ (none, simp z refl)
      | inr z ↦
          let (t, p) = or_later-some (scan_ids (string_at ((c ∷ s) ++ zeros))) _ r q in
          (t, simp z p)
    ]
find_ids-zeros false (c ∷ s) = elim (Bool-cases (c == 0)) [
  | inl z ↦ let (r, q) = find_ids-zeros true s in (r, simp z q)
  | inr z ↦ let (r, q) = find_ids-zeros false s in (r, simp z q)
]

-- Where the bytes end with two zeros, the loop does not read past their end.
pub find_ids-capitalize :
    (xs : List ℕ) → EndsWithZeros xs → (r : Option Ids) × (find_ids true (capitalize xs) ≡ some r)
find_ids-capitalize xs (s, e) =
    let (r, q) = find_ids-zeros true (capitalize s) in
    (r, ap (λ xs. find_ids true (capitalize xs)) e ∙ ap (find_ids true) (capitalize-zeros s) ∙ q)
