-- ===== src/HashTable/Start.antt =====
-- `CreateHashTable`.
use struct.Base.{
  ℕ, zero, suc, ◌+◌, ◌*◌, ◌^◌, ◌<◌, ◌≡◌, ◌≢◌, inl, inr, occurrences, Bool-cases, false, refl, arith,
  true, some, [], ◌==◌, ltb,
}
use struct.Dlist.{Heap, write}
use struct.HashTable.{HashTable, success, link_size, write_at}
use struct.HashTable.Frame.{IsDlist-nil}
use struct.HashTable.Enum.{init_burkets, new_table, create}
use struct.HashTable.Rep.{IsTable}

-- The loop makes each head a list without entries.
module _ (hash_table : ℕ) where
  abbrev head_at : ℕ → ℕ
  head_at j = hash_table + link_size * j

  abbrev Made : ℕ → Heap → Type 0
  Made j h =
      (h.next (head_at j) ≡ head_at j)
      × (h.prev (head_at j) ≡ head_at j)
      × (h.live (head_at j) ≡ true)

  at_head :
      (i j : ℕ) (h : Heap)
      → (j ≢ i → Made j h)
      → Made j (record h {
        live = write_at h.live (head_at i) true;
        next = write h.next (head_at i) (head_at i);
        prev = write h.prev (head_at i) (head_at i);
      })
  at_head i j h made = elim (Bool-cases (j == i)) [
    | inl same ↦ (ground (arith, same), ground (arith, same), ground (arith, same))
    | inr differ ↦
        let other : (head_at j == head_at i) ≡ false = ground (arith, differ) in
        let (next, prev, live) = made (λ eq. grind (arith, differ, eq)) in
        (rw other next, rw other prev, rw other live)
  ]

  init_burkets-Made :
      (n i j : ℕ) (h : Heap)
      → j < i + n
      → (j < i → Made j h)
      → Made j (init_burkets n i hash_table h)
  unfolding init_burkets
  init_burkets-Made zero i j h lt made = made (omega (arith, lt))
  init_burkets-Made (suc n) i j h lt made =
      init_burkets-Made n (suc i) j _ (omega (arith, lt))
        (λ lt'. at_head i j h (λ ne. made (omega (arith, lt', ne))))

-- With two blocks and a length that is positive and fits `int32_t`, CreateHashTable returns 0 and a
-- well-formed table without entries.
pub create_lem :
    (table hash_table length : ℕ) (t : HashTable)
    → 0 < length
    → length < 2 ^ 31
    → (t' : HashTable) × (create true (some table) (some hash_table) length t
        ≡ some (success, some t'))
      × IsTable t' []
unfolding create new_table occurrences
create_lem table hash_table length t pos small =
    let fits : ltb length (2 ^ 31) ≡ true = ground (arith, small) in
    (
      new_table length table hash_table t,
      rw fits refl,
      record {
        some_burkets = pos;
        burkets = λ i lt.
            let (next, prev, live) =
              init_burkets-Made hash_table length 0 i t.entries (omega (arith, lt))
                (λ lt'. absurd (omega (arith, lt'))) in
            IsDlist-nil next prev live;
        fast_links = IsDlist-nil (ground arith) (ground arith) (ground arith);
        no_head = λ i lt. refl;
        uniq = λ z. omega arith;
        not_null = λ z o. absurd (omega (arith, o));
        brother_live = λ z o. absurd (omega (arith, o));
        ids = λ x y o o' eq. absurd (omega (arith, o));
        number = ground arith;
      },
    )
