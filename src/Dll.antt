-- ===== src/Dll.antt =====
-- Doubly linked lists in a C memory: the links that the memory manager keeps between its pages
-- (czl_mm_sp.next/last and freeNext/freeLast), its system blocks (czl_mm_sys_heap) and its cached
-- blocks (czl_mm_cache), each with NULL at both ends. A field is a map from addresses to values.
pub mod Laws
pub mod Unlink
use czl.Prelude.{ℕ, ◌≡◌, ◌≢◌, Bool, true, false, ◌||◌, List, [], ◌∷◌, ◌==◌, if◌then◌else◌, update}

-- The address of the first node, or what follows the list.
abbrev pub first : List ℕ → ℕ → ℕ
first [] s = s
first (x ∷ xs) s = x

-- The address of the last node, or what precedes the list.
abbrev pub final : ℕ → List ℕ → ℕ
final l [] = l
final l (x ∷ xs) = final x xs

abbrev pub has : ℕ → List ℕ → Bool
has a [] = false
has a (x ∷ xs) = (a == x) || has a xs

abbrev pub Distinct : List ℕ → Type 0
Distinct [] = Unit
Distinct (x ∷ xs) = (has x xs ≡ false) × Distinct xs

-- From `l` (exclusive) the nodes `xs` are linked in both directions up to `s` (exclusive).
abbrev pub Seg : (next last : ℕ → ℕ) → ℕ → List ℕ → ℕ → Type 0
Seg next last l [] s = Unit
Seg next last l (x ∷ xs) s = (x ≢ 0) × (last x ≡ l) × (next x ≡ first xs s) × Seg next last x xs s

-- The C pattern that takes `p` out of a list:
-- `if (p->last) p->last->next = p->next; else head = p->next; if (p->next) p->next->last = p->last;`
unfoldable pub unlink_next : (next last : ℕ → ℕ) → ℕ → ℕ → ℕ
unlink_next next last p = if last p == 0 then next else update next (last p) (next p)

unfoldable pub unlink_last : (next last : ℕ → ℕ) → ℕ → ℕ → ℕ
unlink_last next last p = if next p == 0 then last else update last (next p) (last p)

unfoldable pub unlink_head : (next last : ℕ → ℕ) → ℕ → ℕ → ℕ
unlink_head next last head p = if last p == 0 then next p else head

-- The C pattern that puts `p` in front of the list at `head`:
-- `p->last = NULL; p->next = head; if (head) head->last = p; head = p;`
unfoldable pub push_next : (next : ℕ → ℕ) → ℕ → ℕ → ℕ → ℕ
push_next next head p = update next p head

unfoldable pub push_last : (last : ℕ → ℕ) → ℕ → ℕ → ℕ → ℕ
push_last last head p =
    let cleared = update last p 0 in if head == 0 then cleared else update cleared head p
