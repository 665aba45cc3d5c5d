-- ===== src/Windows/HardwareIds/Walk.antt =====
-- The loop over the strings of a REG_MULTI_SZ value, against a search in the list of them.
use libusbp.Base.{
  ℕ, ◌≡◌, refl, Bool, true, false, true≢false, sym, not, ◌&&◌, Option, none, some, List, [], ◌∷◌,
  ◌++◌, ◌==◌,
}
use libusbp.Windows.HardwareIds.{string_at, Ids, scan_ids, or_later, find_ids}

-- The bytes of a list of strings.
abbrev pub multi_sz : List (List ℕ) → List ℕ
multi_sz [] = 0 ∷ []
multi_sz (s ∷ ss) = s ++ (0 ∷ multi_sz ss)

abbrev is_string : List ℕ → Bool
is_string [] = true
is_string (c ∷ s) = not (c == 0) && is_string s

abbrev are_strings : List (List ℕ) → Bool
are_strings [] = true
are_strings ([] ∷ ss) = false
are_strings ((c ∷ s) ∷ ss) = is_string (c ∷ s) && are_strings ss

-- No character is 0.
abbrev IsString : List ℕ → Type 0
IsString s = is_string s ≡ true

-- Strings that are not empty, since an empty one would end the list.
abbrev pub AreStrings : List (List ℕ) → Type 0
AreStrings ss = are_strings ss ≡ true

both_true : (a b : Bool) → (a && b) ≡ true → (a ≡ true) × (b ≡ true)
both_true true b p = (refl, p)
both_true false b p = absurd (true≢false (sym p))

refuted : (a : Bool) → not a ≡ true → a ≡ false
refuted false p = refl
refuted true p = absurd (true≢false (sym p))

IsString-parts : (c : ℕ) (s : List ℕ) → IsString (c ∷ s) → ((c == 0) ≡ false) × IsString s
IsString-parts c s i = let (p, q) = both_true _ _ i in (refuted _ p, q)

abbrev choose : Option Ids → Option Ids → Option Ids
choose none later = later
choose (some ids) later = some ids

-- The IDs of the first string that has them.
abbrev pub first_ids : List (List ℕ) → Option Ids
first_ids [] = none
first_ids (s ∷ ss) = choose (scan_ids s) (first_ids ss)

string_at-string : (s rest : List ℕ) → IsString s → string_at (s ++ (0 ∷ rest)) ≡ s
unfolding string_at
string_at-string [] rest i = refl
string_at-string (c ∷ s) rest i' =
    let (z, i) = IsString-parts c s i' in simp (z, string_at-string s rest i) refl

-- Within a string the loop goes on to its end.
find_ids-within :
    (s rest : List ℕ) → IsString s → find_ids false (s ++ (0 ∷ rest)) ≡ find_ids true rest
unfolding find_ids
find_ids-within [] rest i = refl
find_ids-within (c ∷ s) rest i' =
    let (z, i) = IsString-parts c s i' in simp (z, find_ids-within s rest i) refl

or_later-choose : (now later : Option Ids) → or_later now (some later) ≡ some (choose now later)
unfolding or_later
or_later-choose none later = refl
or_later-choose (some ids) later = refl

-- The loop of `device_take_info_from_hardware_ids` finds what the first string gives from which
-- three numbers can be read, and nothing where there is none. It does not read past the end.
pub find_ids-first :
    (ss : List (List ℕ)) → AreStrings ss → find_ids true (multi_sz ss) ≡ some (first_ids ss)
unfolding find_ids
find_ids-first [] i = refl
find_ids-first ([] ∷ ss) i = absurd (true≢false (sym i))
find_ids-first ((c ∷ s) ∷ ss) i' =
    let (i, is) = both_true (is_string (c ∷ s)) (are_strings ss) i' in
    let (z, j) = IsString-parts c s i in
    simp
      (
        z,
        string_at-string (c ∷ s) (multi_sz ss) i,
        find_ids-within s (multi_sz ss) j,
        find_ids-first ss is,
      )
      (or_later-choose (scan_ids (c ∷ s)) (first_ids ss))
