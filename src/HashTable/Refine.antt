-- ===== src/HashTable/Refine.antt =====
-- The calls of hashtable.cpp on one id, against an association list.
use struct.Base.{
  ℕ, ◌%◌, ◌<◌, ◌≡◌, ◌≢◌, inl, inr, refl, ◌∙◌, sym, ap, ap₂, subst, arith, true, false, Option, none,
  some, List, ◌∷◌, ◌++◌, ◌==◌, ◌+◌, one, occurrences, length,
}
use struct.HashTable.{
  Errno, success, enomem, eexist, enoent, HashTable, burket_at, fast_of, brother_of, fresh_entry,
  insert_at, insert_entry, remove_entry,
}
use struct.HashTable.Rep.{IsTable, Items, contents, lookup, erase}
use struct.HashTable.Lookup.{search, search-cases, find_in_lem, some_here, not_head, found_in}
use struct.HashTable.Remove.{contents-Kept, discard_lem}
use struct.HashTable.Insert.{
  Fresh, contents-made, burket-made, made_IsTable, burket_free, fast_free, insert_at_lem,
}

-- What a call that ends means for the association list: the error, and the list after it.
abbrev pub Refines : HashTable → Option (Errno × Option HashTable) → Errno × Items → Type 0
Refines t run (errno, items) =
    (t' : HashTable) × (es' : List ℕ) × (run ≡ some (errno, some t'))
    × IsTable t' es'
    × (contents t' es' ≡ items)

by_meaning :
    (t : HashTable) (run : Option (Errno × Option HashTable)) {v w : Errno × Items}
    → v ≡ w
    → Refines t run v
    → Refines t run w
by_meaning t run = subst (Refines t run)

abbrev pub removal : ℕ → Items → Errno × Items
removal id items = elim (lookup id items) [
  | none ↦ (enoent, items)
  | some v ↦ (success, erase id items)
]

abbrev pub insertion : Option ℕ → (id : ℕ) → List ℕ → Items → Errno × Items
insertion none id bytes items = (enomem, items)
insertion (some e) id bytes items = elim (lookup id items) [
  | none ↦ (success, (id, bytes, length bytes) ∷ items)
  | some v ↦ (eexist, items)
]

-- What is asked of `malloc`.
abbrev pub Mallocs : HashTable → Option ℕ → Type 0
Mallocs t none = Unit
Mallocs t (some e) = Fresh t e

module _ (t : HashTable) (es : List ℕ) (is : IsTable t es) (fuel : ℕ) (enough : length es < fuel)
    (id : ℕ) where
  abbrev head_of : ℕ
  head_of = burket_at t (id % t.number_of_burkets)

  remove_present :
      (us : List ℕ) (e : ℕ) (vs : List ℕ)
      → es ≡ us ++ (e ∷ vs)
      → search t.id_node id head_of es ≡ e
      → Refines t (remove_entry fuel id (some t)) (success, contents t (us ++ vs))
  unfolding remove_entry
  remove_present us e vs split s =
      let inside : (e == head_of) ≡ false =
        not_head t es is fuel enough id e (found_in t es is fuel enough id us e vs split) in
      let (t', run, is', kept, freed) = discard_lem t us e vs (subst (IsTable t) split is) in
      (
        t',
        us ++ vs,
        rw
            (
              some_here t es is fuel enough id,
              remove_entry,
              find_in_lem t es is fuel enough id,
              s,
              inside,
              run,
            )
            refl,
        is',
        contents-Kept t t' (us ++ vs) kept,
      )

  -- On a well-formed table and with fuel above the number of its entries, RemoveHashEntry ends
  -- without a fault: it returns ENOENT and leaves the table if the id is not there, else it returns 0
  -- and leaves a well-formed table without the id, with all else in its order.
  pub remove_entry_lem : Refines t (remove_entry fuel id (some t)) (removal id (contents t es))
  unfolding remove_entry
  remove_entry_lem = elim (search-cases t id head_of es) [
    | inl (s, l, r, differs) ↦
        let at_head : (head_of == head_of) ≡ true = ground arith in
        let same : (enoent, contents t es) ≡ removal id (contents t es) = rw (removal, l) refl in
        by_meaning t (remove_entry fuel id (some t)) same (
          t,
          es,
          rw
              (
                some_here t es is fuel enough id,
                remove_entry,
                find_in_lem t es is fuel enough id,
                s,
                at_head,
              )
              refl,
          is,
          refl,
        )
    | inr (us, e, vs, split, s, k, l, r) ↦
        let same : (success, contents t (us ++ vs)) ≡ removal id (contents t es) =
          rw (removal, l, r) refl in
        by_meaning t (remove_entry fuel id (some t)) same (remove_present us e vs split s)
  ]

  module _ (e : ℕ) (bytes : List ℕ) (new : Fresh t e) where
    abbrev made : HashTable
    made = fresh_entry e id bytes t

    made_is : IsTable made es
    made_is = made_IsTable t es is e new id bytes

    same_contents : contents made es ≡ contents t es
    same_contents = contents-made t es is e new id bytes

    made_fields :
        (made.id_node e ≡ id)
        × (made.bytes e ≡ bytes)
        × (made.data_size e ≡ length bytes)
        × (made.entries.live e ≡ true)
        × (made.fast.live (fast_of e) ≡ true)
        × (made.brothers.live (brother_of e) ≡ true)
    unfolding fresh_entry
    made_fields =
        let self : (e == e) ≡ true = ground arith in
        let self' : (fast_of e == fast_of e) ≡ true = ground arith in
        let self'' : (brother_of e == brother_of e) ≡ true = ground arith in
        (rw self refl, rw self refl, rw self refl, rw self refl, rw self' refl, rw self'' refl)

    insert_absent :
        ((z : ℕ) → 0 < occurrences z es → made.id_node z ≢ id)
        → search made.id_node id head_of es ≡ head_of
        → Refines t
            (insert_entry fuel (some e) id bytes (some t))
            (success, (id, bytes, length bytes) ∷ contents t es)
    unfolding insert_entry fresh_entry
    insert_absent differs s =
        let n = t.number_of_burkets in
        let (i, b, z, le, lf, lb) = made_fields in
        let (t', run, is', same) =
          insert_at_lem made es made_is e le lf lb new.not_nil
            (λ j lt.
              ap (λ w. one e (burket_at t j) + occurrences e w)
                (burket-made t es is e new id bytes j)
              ∙ burket_free t es is e new j lt)
            (fast_free t es is e new) (λ x o eq. differs x o (eq ∙ i)) in
        let run' : insert_at head_of e head_of made ≡ some (success, some t') =
          subst
            (λ k.
              insert_at (burket_at t (k % n)) e (burket_at t (k % n)) made
              ≡ some (success, some t'))
            i run in
        (
          t',
          e ∷ es,
          rw
              (
                some_here t es is fuel enough id,
                insert_entry,
                find_in_lem made es made_is fuel enough id,
                s,
                run',
              )
              refl,
          is',
          same ∙ ap₂ (λ v w. v ∷ w) (λ j. (i j, b j, z j)) same_contents,
        )

  -- On a well-formed table, with fuel above the number of its entries and a `malloc` that returns NULL
  -- or a block that is not in use, InsertHashEntry ends without a fault and leaves a well-formed
  -- table: it returns ENOMEM without a block, EEXIST if the id is there, both without a change to
  -- what the table holds, and else 0, with the id and a copy of the bytes in front.
  pub insert_entry_lem :
      (malloc : Option ℕ) (bytes : List ℕ)
      → Mallocs t malloc
      → Refines t
          (insert_entry fuel malloc id bytes (some t))
          (insertion malloc id bytes (contents t es))
  unfolding insert_entry insert_at fresh_entry
  insert_entry_lem none bytes new =
      (t, es, rw (some_here t es is fuel enough id, insert_entry) refl, is, refl)
  insert_entry_lem (some e) bytes new = elim (search-cases (made e bytes new) id head_of es) [
    | inl (s, l, r, differs) ↦
        let l' : lookup id (contents t es) ≡ none =
          ap (lookup id) (sym (same_contents e bytes new)) ∙ l in
        let same : (success, (id, bytes, length bytes) ∷ contents t es)
            ≡ insertion (some e) id bytes (contents t es) =
          rw (insertion, l') refl in
        by_meaning t (insert_entry fuel (some e) id bytes (some t)) same
          (insert_absent e bytes new differs s)
    | inr (us, x, vs, split, s, k, l, r) ↦
        let m = made e bytes new in
        let l' : lookup id (contents t es) ≡ some (m.bytes x, m.data_size x) =
          ap (lookup id) (sym (same_contents e bytes new)) ∙ l in
        let same : (eexist, contents t es) ≡ insertion (some e) id bytes (contents t es) =
          rw (insertion, l') refl in
        let inside : (x == head_of) ≡ false =
          not_head t es is fuel enough id x (found_in t es is fuel enough id us x vs split) in
        by_meaning t (insert_entry fuel (some e) id bytes (some t)) same (
          m,
          es,
          rw
              (
                some_here t es is fuel enough id,
                insert_entry,
                find_in_lem m es (made_is e bytes new) fuel enough id,
                s,
                insert_at,
                inside,
              )
              refl,
          made_is e bytes new,
          same_contents e bytes new,
        )
  ]
