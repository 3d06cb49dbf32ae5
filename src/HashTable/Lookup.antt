-- ===== src/HashTable/Lookup.antt =====
-- The search of hashtable.cpp in a bucket.
use struct.Base.{
  ℕ, zero, suc, ◌%◌, ◌<◌, ◌≡◌, ◌≢◌, ◌⊎◌, inl, inr, refl, ◌∙◌, sym, ap, subst, Bool, false, arith,
  true, none, some, List, [], ◌∷◌, ◌++◌, ◌==◌, if◌then◌else◌, occurrences, occurrences-append,
  length, Bool-cases, ==_iff,
}
use struct.Dlist.Seg.{IsDlist}
use struct.Dlist.Add.{first, cut-Linked, head_live}
use struct.Dlist.Walk.{entry_links}
use struct.HashTable.{HashTable, burket_at, find_from, find_in, find_entry}
use struct.HashTable.Rep.{members, burket, IsTable, contents, lookup, erase, length-members}

-- The first entry with the id, or the head.
abbrev pub search : (ℕ → ℕ) → (id head : ℕ) → List ℕ → ℕ
search id_node id head [] = head
search id_node id head (e ∷ es) = if id_node e == id then e else search id_node id head es

search-members :
    (id_node : ℕ → ℕ) (n id head : ℕ) (es : List ℕ)
    → search id_node id head (members id_node n (id % n) es) ≡ search id_node id head es
search-members id_node n id head [] = refl
search-members id_node n id head (e ∷ es) =
    let more = search-members id_node n id head es in
    elim (Bool-cases (id_node e == id)) [
      | inl same ↦
          let here : (id_node e % n == id % n) ≡ true = ground (arith, same) in rw (here, same) refl
      | inr differ ↦ elim (Bool-cases (id_node e % n == id % n)) [
        | inl here ↦ rw (here, differ) more
        | inr there ↦ rw (there, differ) more
      ]
    ]

some_if : (b : Bool) (x y : ℕ) → (if b then some x else some y) ≡ some (if b then x else y)
some_if true x y = refl
some_if false x y = refl

module _ (t : HashTable) (id head : ℕ) where
  find_from_lem :
      (fuel : ℕ) (us xs : List ℕ)
      → IsDlist t.entries head (us ++ xs)
      → length xs < fuel
      → find_from fuel id head (first head xs) t ≡ some (search t.id_node id head xs)
  unfolding find_from
  find_from_lem zero us xs is lt = absurd (omega arith)
  find_from_lem (suc fuel) us [] is lt =
      let here : (head == head) ≡ true = ground arith in rw here refl
  find_from_lem (suc fuel) us (x ∷ xs) is lt =
      let (live, before, next, differ, is') = entry_links t.entries head us x xs is in
      let more = find_from_lem fuel (us ++ (x ∷ [])) xs is' (omega arith) in
      rw (differ, live, next, more) (some_if (t.id_node x == id) x (search t.id_node id head xs))

  find_in_chain :
      (fuel : ℕ) (xs : List ℕ)
      → IsDlist t.entries head xs
      → length xs < fuel
      → find_in fuel id head t ≡ some (search t.id_node id head xs)
  unfolding find_in
  find_in_chain fuel xs is lt =
      rw (head_live t.entries head [] xs is, (cut-Linked t.entries head [] xs is).0)
        (find_from_lem fuel [] xs is lt)

-- What a search of all entries comes to: the id is nowhere, or at one entry.
abbrev pub Absent : HashTable → (id head : ℕ) → List ℕ → Type 0
Absent t id head es =
    (search t.id_node id head es ≡ head)
    × (lookup id (contents t es) ≡ none)
    × (erase id (contents t es) ≡ contents t es)
    × ((z : ℕ) → 0 < occurrences z es → t.id_node z ≢ id)

abbrev pub Present : HashTable → (id head : ℕ) → List ℕ → Type 0
Present t id head es =
    (us : List ℕ) × (e : ℕ) × (vs : List ℕ) × (es ≡ us ++ (e ∷ vs))
    × (search t.id_node id head es ≡ e)
    × (t.id_node e ≡ id)
    × (lookup id (contents t es) ≡ some (t.bytes e, t.data_size e))
    × (erase id (contents t es) ≡ contents t (us ++ vs))

not_first :
    (id_node : ℕ → ℕ) (id x : ℕ) (xs : List ℕ)
    → (id_node x == id) ≡ false
    → ((z : ℕ) → 0 < occurrences z xs → id_node z ≢ id)
    → (z : ℕ) → 0 < occurrences z (x ∷ xs)
    → id_node z ≢ id
unfolding occurrences
not_first id_node id x xs differ differs z i eq = elim (Bool-cases (z == x)) [
  | inl same ↦
      let here : (id_node x == id) ≡ true =
        (==_iff (id_node x) id).1 (ap id_node (sym ((==_iff z x).0 same)) ∙ eq) in
      absurd (cc)
  | inr other ↦ differs z (ground arith) eq
]

pub search-cases :
    (t : HashTable) (id head : ℕ) (es : List ℕ) → Absent t id head es ⊎ Present t id head es
unfolding occurrences
search-cases t id head [] = inl (refl, refl, refl, λ z i. absurd (omega arith))
search-cases t id head (x ∷ xs) = elim (Bool-cases (t.id_node x == id)) [
  | inl same ↦
      inr (
        [],
        x,
        xs,
        refl,
        rw same refl,
        (==_iff (t.id_node x) id).0 same,
        rw same refl,
        rw same refl,
      )
  | inr differ ↦ elim (search-cases t id head xs) [
    | inl (s, l, r, differs) ↦
        inl (
          rw differ s,
          rw differ l,
          rw (differ, r) refl,
          not_first t.id_node id x xs differ differs,
        )
    | inr (us, e, vs, split, s, k, l, r) ↦
        inr (x ∷ us, e, vs, ap (λ w. x ∷ w) split, rw differ s, k, rw differ l, rw (differ, r) refl)
  ]
]

module _ (t : HashTable) (es : List ℕ) (is : IsTable t es) (fuel : ℕ) (enough : length es < fuel)
    (id : ℕ) where
  abbrev head_of : ℕ
  head_of = burket_at t (id % t.number_of_burkets)

  pub find_in_lem : find_in fuel id head_of t ≡ some (search t.id_node id head_of es)
  find_in_lem =
      let n = t.number_of_burkets in
      let lt : id % n < n = omega (arith, is.some_burkets) in
      find_in_chain t id head_of fuel (burket t (id % n) es) (is.burkets (id % n) lt)
        (omega (arith, length-members t.id_node n (id % n) es, enough))
      ∙ ap some (search-members t.id_node n id head_of es)

  pub some_here : (t.number_of_burkets == 0) ≡ false
  some_here = ground (arith, is.some_burkets)

  -- An entry is not the head of the bucket.
  pub not_head : (e : ℕ) → 0 < occurrences e es → (e == head_of) ≡ false
  not_head e i =
      let lt : id % t.number_of_burkets < t.number_of_burkets = omega (arith, is.some_burkets) in
      elim (Bool-cases (e == head_of)) [
        | inl same ↦
            let eq : e ≡ head_of = (==_iff e head_of).0 same in
            let none_there : occurrences e es ≡ 0 =
              ap (λ w. occurrences w es) eq ∙ is.no_head (id % t.number_of_burkets) lt in
            absurd (omega (arith, i, none_there))
        | inr differ ↦ differ
      ]

  pub found_in : (us : List ℕ) (e : ℕ) (vs : List ℕ) → es ≡ us ++ (e ∷ vs) → 0 < occurrences e es
  unfolding occurrences
  found_in us e vs split =
      subst (λ w. 0 < occurrences e w) (sym split) (grind (arith, occurrences-append e us (e ∷ vs)))

  -- FindHashEntry returns the bytes that the table holds for the id, and their number, or NULL.
  pub find_entry-lookup : find_entry fuel id (some t) ≡ some (lookup id (contents t es))
  unfolding find_entry
  find_entry-lookup = elim (search-cases t id head_of es) [
    | inl (s, l, r, differs) ↦
        let at_head : (head_of == head_of) ≡ true = ground arith in
        rw (some_here, find_entry, find_in_lem, s, at_head, l) refl
    | inr (us, e, vs, split, s, k, l, r) ↦
        let inside : (e == head_of) ≡ false = not_head e (found_in us e vs split) in
        rw (some_here, find_entry, find_in_lem, s, inside, l) refl
  ]
