-- ===== src/Hash/Tests.antt =====
-- The theorems on the system hash tables at tables of a few names.
use czl.Prelude.{
  ℕ, zero, suc, All, get_or, ◌≡◌, ◌⊎◌, ◌<◌, ◌-◌, ◌*◌, ◌%◌, ◌^◌, refl, inl, Bool, true, false, none,
  some, List, [], ◌∷◌, arith,
}
use czl.Mm.State.{word}
use czl.Hash.Key.{bkdr_hash, index_cac}
use czl.Hash.Table.{
  SysHash, empty_hash, Named, name_kind, str_eq, size_update, sys_hash_find, sys_hash_insert,
  sys_hash_delete,
}
use czl.Hash.Tally.{tally_all}
use czl.Hash.Resize.{IsHash, size_update-IsHash}
use czl.Hash.Kinds.{names-Lawful}
use czl.Hash.Find.{sys_hash_find_complete}
use czl.Hash.Change.{Valid, Inserted, sys_hash_insert-Inserted}
use czl.Hash.Delete.{Deleted, sys_hash_delete-Deleted}

-- An allocator that serves every request.
abbrev always : ℕ → Bool
always n = true

abbrev ab : Named
ab = record { name = 97 ∷ 98 ∷ []; obj = 1000 }

abbrev cd : Named
cd = record { name = 99 ∷ 100 ∷ []; obj = 2000 }

abbrev none_yet : SysHash name_kind
none_yet = empty_hash name_kind

none_yet-Valid : Valid name_kind none_yet
none_yet-Valid = inl (record { no_size = refl; no_count = refl; no_buckets = refl })

sys_hash_insert-Inserted_example :
    Inserted name_kind always ab none_yet (sys_hash_insert name_kind always ab none_yet)
sys_hash_insert-Inserted_example =
    sys_hash_insert-Inserted name_kind names-Lawful.hashes always ab none_yet none_yet-Valid
      (omega arith)

-- The table that holds `ab` in its one bucket.
abbrev single : SysHash name_kind
single = record { mask = word - 1; size = 1; count = 1; buckets = (ab ∷ []) ∷ [] }

ab_index : index_cac (bkdr_hash ab.name) (word - 1) ≡ 0
unfolding index_cac bkdr_hash
ab_index = refl

single-homed :
    (j : ℕ)
    → All
        (λ p. index_cac (bkdr_hash p.name) (word - 2 ^ 0) ≡ j)
        (get_or {A = List Named} ((ab ∷ []) ∷ []) j [])
single-homed zero = (ab_index, tt)
single-homed (suc j) = tt

single-IsHash : IsHash name_kind 0 single
single-IsHash = record {
  placed = record { bounded = omega arith; len = refl; homed = single-homed };
  counts = record { counted = refl; count_word = omega arith };
  size_eq = refl;
  mask_eq = refl;
}

sys_hash_delete-Deleted_example :
    Deleted name_kind ab single (sys_hash_delete name_kind always ab single)
sys_hash_delete-Deleted_example =
    sys_hash_delete-Deleted name_kind names-Lawful 0 single single-IsHash always ab

sys_hash_find_complete_example :
    ((sys_hash_find name_kind cd.name single ≡ none)
      × (tally_all (λ p. str_eq cd.name p.name) single.buckets ≡ 0))
    ⊎ ((p : Named) × (sys_hash_find name_kind cd.name single ≡ some p)
        × (str_eq cd.name p.name ≡ true)
        × (0 < tally_all (λ p. str_eq cd.name p.name) single.buckets))
sys_hash_find_complete_example =
    sys_hash_find_complete name_kind names-Lawful.hashes 0 single single-IsHash cd.name

size_update-IsHash_example :
    ((always (2 ^ 3 * 4 % word) ≡ false) × (size_update name_kind always 8 single ≡ none))
    ⊎ ((u : SysHash name_kind) × (always (2 ^ 3 * 4 % word) ≡ true)
        × (size_update name_kind always 8 single ≡ some u)
        × IsHash name_kind 3 u
        × ((P : Named → Bool) → tally_all P u.buckets ≡ tally_all P single.buckets))
size_update-IsHash_example =
    size_update-IsHash name_kind names-Lawful.hashes 3 always 8 single (omega arith) (inl refl)
      single-IsHash.counts
