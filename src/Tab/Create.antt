-- ===== src/Tab/Create.antt =====
-- czl_create_key_str_tabkv and czl_create_key_num_tabkv of code/czl_vm.c, with ins = NULL.
use czl.Prelude.{
  ℕ, suc, ◌+◌, ◌*◌, ◌%◌, ◌<◌, ◌^◌, ◌≡◌, ◌⊎◌, inl, inr, refl, sym, ap, subst, ◌∙◌, Bool, true, false,
  Option, none, some, List, [], ◌∷◌, arith, Bool-cases, ◌==◌, ltb,
}
use czl.Mm.State.{word, add_ulong}
use czl.Hash.Tally.{tally, one_if}
use czl.Hash.Change.{doubled}
use czl.Tab.{TabKey, Tabkv, Table, kind_of, query_hash, collides}
use czl.Tab.Element.{
  no_ins, at_addr, tabkv_insert, index_of, new_node, chain_of, chain_find, find_or_add, add_to,
  key_hash, room, create_key,
}
use czl.Tab.Kind.{Computes, entries, tab_kind-Hashes, view, IsTab, IsTab-IsList}
use czl.Tab.Rebuild.{tab_size_update-IsTab}
use czl.Tab.Chains.{Has}
use czl.Tab.Find.{Matches, Absent, chain_find_lem}
use czl.Tab.Insert.{with_entry, insert-IsTab, place-entries}

-- The number of entries at an address, and of all entries.
entries-tally :
    (P : ℕ → Bool) (eles : List Tabkv)
    → tally (λ p. P p.addr) eles ≡ tally (λ e. P e.0) (entries eles)
entries-tally P [] = refl
entries-tally P (p ∷ eles) = ap (λ n. one_if (P p.addr) + n) (entries-tally P eles)

same_entries :
    (P : ℕ → Bool) (a b : List Tabkv)
    → entries a ≡ entries b
    → tally (λ p. P p.addr) a ≡ tally (λ p. P p.addr) b
same_entries P a b e =
    entries-tally P a ∙ ap (λ es. tally (λ x. P x.0) es) e ∙ sym (entries-tally P b)

module _ (overrun : List ℕ → List ℕ → Bool) (granted : ℕ → Bool) (alloc : Option ℕ) where
  -- Nothing is added, because memory is refused.
  abbrev pub Refused : Table → Table × Option Tabkv → Type 0
  Refused t out =
      (out.1 ≡ none)
      × ((entries out.0.eles ≡ entries t.eles) × ((alloc ≡ none) ⊎ ((n : ℕ) × (granted n ≡ false))))

  -- The key has an entry already.
  abbrev pub Present : TabKey → Table → Table × Option Tabkv → Type 0
  Present q t out =
      (p : Tabkv) × ((out.1 ≡ some p)
        × ((entries out.0.eles ≡ entries t.eles)
            × (Has (p.addr, p.key) (entries t.eles) × Matches overrun q p.key)))

  -- The key has none, and gets one, at the end or in front.
  abbrev pub Added : TabKey → Bool → Table → Table × Option Tabkv → Type 0
  Added q flag t out =
      (p : Tabkv) × ((out.1 ≡ some p)
        × ((alloc ≡ some p.addr)
            × ((p.key ≡ q)
                × (Absent overrun q (entries t.eles)
                    × (entries out.0.eles ≡ with_entry flag (p.addr, q) (entries t.eles))))))

  abbrev pub Created : TabKey → Bool → Table → Option (Table × Option Tabkv) → Type 0
  Created q flag t o =
      (out : Table × Option Tabkv) × ((o ≡ some out)
        × (((k : ℕ) × IsTab overrun k out.0)
            × (Refused t out ⊎ (Present q t out ⊎ Added q flag t out))))

  add_lem :
      (k : ℕ) (q : TabKey) (flag : Bool) (u : Table) (al : Option ℕ)
      → alloc ≡ al
      → IsTab overrun k u
      → Computes q
      → u.count < 2 ^ 31
      → ((a : ℕ) → alloc ≡ some a → tally (at_addr a) u.eles ≡ 0)
      → Absent overrun q (entries u.eles)
      → Created q flag u (
          some (add_to overrun al q (index_of u q) (query_hash u.key u.attack_cnt q) no_ins flag u))
  unfolding tabkv_insert
  add_lem k q flag u none e v c small fresh absent =
      ((u, none), (refl, ((k, v), inl (refl, (refl, inl e)))))
  add_lem k q flag u (some a) e v c small fresh absent =
      let kv = new_node u q a in
      (
        (tabkv_insert overrun u kv (index_of u q) no_ins flag, some kv),
        (
          refl,
          (
            (k, insert-IsTab overrun k u q a flag v c small (fresh a e)),
            inr (inr (kv, (refl, (e, (refl, (absent, place-entries flag kv u.eles)))))),
          ),
        ),
      )

  -- Once there is room.
  after_room :
      (new_key : ℕ → ℕ) (k : ℕ) (q : TabKey) (flag : Bool) (u : Table)
      → IsTab overrun k u
      → Computes q
      → u.count < 2 ^ 31
      → ((a : ℕ) → alloc ≡ some a → tally (at_addr a) u.eles ≡ 0)
      → collides (chain_of u q) ≡ false
      → Created q flag u (
          find_or_add overrun new_key alloc
            (query_hash u.key u.attack_cnt q)
            q
            no_ins
            flag
            u
            (chain_find overrun u q))
  after_room new_key k q flag u v c small fresh short = elim (chain_find_lem overrun k u q v) [
    | inl (n, absent) ↦ rw (n, short) (add_lem k q flag u alloc refl v c small fresh absent)
    | inr (p, (s, h)) ↦ rw s ((u, some p), (refl, ((k, v), inr (inl (p, (refl, (refl, h)))))))
  ]

  -- What holds of a table with the same entries holds of the table.
  from_same :
      (q : TabKey) (flag : Bool) (t u : Table) (o : Option (Table × Option Tabkv))
      → entries u.eles ≡ entries t.eles
      → Created q flag u o
      → Created q flag t o
  from_same q flag t u o e (out, (eo, (v, inl (n, (same, why))))) =
      (out, (eo, (v, inl (n, (same ∙ e, why)))))
  from_same q flag t u o e (out, (eo, (v, inr (inl (p, (ep, (same, (has, m)))))))) = (
    out,
    (eo, (v, inr (inl (p, (ep, (same ∙ e, (subst (λ es. Has (p.addr, p.key) es) e has, m))))))),
  )
  from_same q flag t u o e (out, (eo, (v, inr (inr (p, (ep, (ea, (ek, (absent, new))))))))) = (
    out,
    (
      eo,
      (
        v,
        inr (
            inr (
              p,
              (
                ep,
                (
                  ea,
                  (
                    ek,
                    (subst (Absent overrun q) e absent, new ∙ ap (with_entry flag (p.addr, q)) e),
                  ),
                ),
              ),
            )),
      ),
    ),
  )

  same_count :
      (k m : ℕ) (t u : Table)
      → IsTab overrun k t
      → IsTab overrun m u
      → entries u.eles ≡ entries t.eles
      → u.count ≡ t.count
  same_count k m t u v w e =
      (IsTab-IsList overrun m u w).counted
      ∙ same_entries (λ a. true) u.eles t.eles e
      ∙ sym ((IsTab-IsList overrun k t v).counted)

  -- In a well-formed table of less than 2 ^ 31 elements, with an address for the new element that no
  -- element has, and, once there is room, a chain of less than 64 elements where the key belongs and
  -- a hash that the doubling has not changed, the table after czl_create_tabkv is well-formed, and either the memory was refused and the entries
  -- are the same, or the key has an entry, which is returned, and the entries are the same, or it
  -- had none and the new element with the key is returned and is the last entry, or the first
  -- without `flag`.
  pub create_key-Created :
      (new_key : ℕ → ℕ) (k : ℕ) (q : TabKey) (flag : Bool) (t : Table)
      → IsTab overrun k t
      → Computes q
      → t.count < 2 ^ 31
      → suc t.attack_cnt < word
      → ((a : ℕ) → alloc ≡ some a → tally (at_addr a) t.eles ≡ 0)
      → ((u : Table)
          → room overrun new_key granted t ≡ some u
          → (key_hash t u q ≡ query_hash u.key u.attack_cnt q) × (collides (chain_of u q) ≡ false))
      → Created q flag t (create_key overrun new_key granted alloc q no_ins flag t)
  unfolding create_key
  create_key-Created new_key k q flag t v c small calm fresh short =
      elim (Bool-cases (ltb t.size (add_ulong t.count 1))) [
        | inr fits ↦
            let r : room overrun new_key granted t ≡ some t = rw fits refl in
            rw (r, (short t r).0) (after_room new_key k q flag t v c small fresh (short t r).1)
        | inl full ↦
            let law = tab_kind-Hashes overrun t.key t.attack_cnt in
            let d = doubled (kind_of overrun t) law (view overrun t) (inr (k, v.hash)) full small in
            elim (tab_size_update-IsTab overrun new_key granted (t.size * 2 % word) d.0 t d.1 d.2
              calm (IsTab-IsList overrun k t v)) [
                | inl (g, e) ↦
                    let r : room overrun new_key granted t ≡ none = rw (full, e) refl in
                    rw r
                      ((t, none), (refl, ((k, v), inl (refl, (refl, inr (2 ^ d.0 * 4 % word, g))))))
                | inr (u, (served, (e, (w, same)))) ↦
                    let r : room overrun new_key granted t ≡ some u = rw (full, e) refl in
                    let n = same_count k d.0 t u v w same in
                    rw (r, (short u r).0)
                      (from_same q flag t u
                        (find_or_add overrun new_key alloc (query_hash u.key u.attack_cnt q) q
                          no_ins flag u (chain_find overrun u q))
                        same
                        (after_room new_key d.0 q flag u w c (omega (arith, n, small))
                          (λ a ea. same_entries (λ b. b == a) u.eles t.eles same ∙ fresh a ea)
                          (short u r).1))
              ]
      ]
