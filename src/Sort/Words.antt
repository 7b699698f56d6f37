-- ===== src/Sort/Words.antt =====
-- czl_strcmp of code/czl_lib.c, with which the names of modes are compared: on letters it compares
-- the texts without regard to case.
use czl.Prelude.{
  ℕ, ◌+◌, ◌≤◌, ◌≡◌, refl, Bool, true, false, some, List, [], ◌∷◌, arith, leb, ◌==◌, ◌&&◌, ◌⊎◌,
  if◌then◌else◌, All,
}
use czl.Sort.Compare.{czl_strcmp, same_letter}

-- 'A' to 'Z' and 'a' to 'z'.
abbrev pub IsLetter : ℕ → Type 0
IsLetter c = ((65 ≤ c) × (c ≤ 90)) ⊎ ((97 ≤ c) × (c ≤ 122))

abbrev pub lower : ℕ → ℕ
lower c = if leb c 90 then c + 32 else c

abbrev pub same_lower : List ℕ → List ℕ → Bool
same_lower [] [] = true
same_lower [] (y ∷ b) = false
same_lower (x ∷ a) [] = false
same_lower (x ∷ a) (y ∷ b) = (lower x == lower y) && same_lower a b

same_letter_lem : (x y : ℕ) → IsLetter x → IsLetter y → same_letter x y ≡ (lower x == lower y)
same_letter_lem x y hx hy = ground arith

-- No letter is a text's end.
not_end : (x : ℕ) → IsLetter x → same_letter x 0 ≡ false
not_end x hx = ground arith

-- On texts of letters czl_strcmp reads no character past the end, and tells whether the texts are
-- the same but for the case of their letters.
pub czl_strcmp-same_lower :
    (a b : List ℕ) → All IsLetter a → All IsLetter b → czl_strcmp a b ≡ some (same_lower a b)
unfolding czl_strcmp
czl_strcmp-same_lower [] [] ha hb = refl
czl_strcmp-same_lower [] (y ∷ b) ha hb = refl
czl_strcmp-same_lower (x ∷ a) [] ha hb = let end = not_end x ha.0 in rw end refl
czl_strcmp-same_lower (x ∷ a) (y ∷ b) ha hb =
    rw (same_letter_lem x y ha.0 hb.0, czl_strcmp-same_lower a b ha.1 hb.1)
      (both (lower x == lower y) (same_lower a b))
  where
    both : (c d : Bool) → (if c then some d else some false) ≡ some (c && d)
    both true d = refl
    both false d = refl
