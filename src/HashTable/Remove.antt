-- ===== src/HashTable/Remove.antt =====
-- An entry of hashtable.cpp that goes.
use struct.Base.{
  ℕ, ◌+◌, ◌-◌, ◌^◌, ◌%◌, ◌≤◌, ◌<◌, ◌≡◌, ◌≢◌, inl, inr, refl, ◌∙◌, sym, ap, subst, false, arith,
  true, some, List, [], ◌∷◌, ◌++◌, ◌==◌, one, occurrences, occurrences-append, length,
  length-append, Bool-cases, ==_iff, u32,
}
use struct.Dlist.{Heap}
use struct.Dlist.Seg.{IsDlist, Only}
use struct.HashTable.{HashTable, burket_at, fast_of, brother_of, free_entry, discard}
use struct.HashTable.Frame.{IsDlist-agree, IsDlist-freed}
use struct.HashTable.Links.{unlink_lem}
use struct.HashTable.Rep.{
  members, burket, fasts, IsTable, contents, contents_same, members-append, members_with,
  members_without, fasts-append, burkets_apart,
}

-- What a removal leaves of the table and of the entries' ids and bytes.
pub record Kept (t t' : HashTable) : Type 0 where
  pub same_id : t'.id_node ≡ t.id_node
  pub same_bytes : t'.bytes ≡ t.bytes
  pub same_size : t'.data_size ≡ t.data_size
  pub same_number : t'.number_of_burkets ≡ t.number_of_burkets
  pub same_table : t'.hash_table ≡ t.hash_table
  pub same_list : t'.fast_list ≡ t.fast_list

pub Kept-refl : (t : HashTable) → Kept t t
Kept-refl t = record {
  same_id = refl;
  same_bytes = refl;
  same_size = refl;
  same_number = refl;
  same_table = refl;
  same_list = refl;
}

pub Kept-trans : (t t1 t2 : HashTable) → Kept t t1 → Kept t1 t2 → Kept t t2
Kept-trans t t1 t2 k1 k2 = record {
  same_id = k2.same_id ∙ k1.same_id;
  same_bytes = k2.same_bytes ∙ k1.same_bytes;
  same_size = k2.same_size ∙ k1.same_size;
  same_number = k2.same_number ∙ k1.same_number;
  same_table = k2.same_table ∙ k1.same_table;
  same_list = k2.same_list ∙ k1.same_list;
}

pub contents-Kept : (t t' : HashTable) (es : List ℕ) → Kept t t' → contents t' es ≡ contents t es
contents-Kept t t' es k =
    contents_same t t' es
      (λ z i. (ap (λ f. f z) k.same_id, ap (λ f. f z) k.same_bytes, ap (λ f. f z) k.same_size))

-- The entries `es`, and no others, are freed.
pub record Freed (t t' : HashTable) (es : List ℕ) : Type 0 where
  pub gone : (z : ℕ) → 0 < occurrences z es → t'.entries.live z ≡ false
  pub others : (z : ℕ) → occurrences z es ≡ 0 → t'.entries.live z ≡ t.entries.live z

module _ (t : HashTable) (us : List ℕ) (e : ℕ) (vs : List ℕ) (is : IsTable t (us ++ (e ∷ vs))) where
  abbrev n : ℕ
  n = t.number_of_burkets

  abbrev home : ℕ
  home = t.id_node e % n

  abbrev after : (h f : Heap) → HashTable
  after h f = record (free_entry e (record t { entries = h; fast = f })) {
    number_of_node = u32 (t.number_of_node + 2 ^ 32 - 1);
  }

  once :
      (z : ℕ)
      → (occurrences z us + (one z e + occurrences z vs) ≤ 1)
        × (occurrences z (us ++ (e ∷ vs)) ≡ occurrences z us + (one z e + occurrences z vs))
        × (occurrences z (us ++ vs) ≡ occurrences z us + occurrences z vs)
  unfolding occurrences
  once z = (
    omega (arith, is.uniq z, occurrences-append z us (e ∷ vs)),
    occurrences-append z us (e ∷ vs),
    occurrences-append z us vs,
  )

  at_home : home < n
  at_home = omega (arith, is.some_burkets)

  home_links :
      IsDlist t.entries
        (burket_at t home)
        (members t.id_node n home us ++ (e ∷ members t.id_node n home vs))
  home_links =
      subst (IsDlist t.entries (burket_at t home))
        (members_with t.id_node n home us e vs (ground arith)) (is.burkets home at_home)

  all_links : IsDlist t.fast t.fast_list (fasts us ++ (fast_of e ∷ fasts vs))
  all_links = subst (IsDlist t.fast t.fast_list) (fasts-append us (e ∷ vs)) is.fast_links

  e_out :
      one e (burket_at t home)
        + occurrences e (members t.id_node n home us ++ members t.id_node n home vs)
      ≡ 0
  unfolding occurrences
  e_out =
      let us' = members t.id_node n home us in
      let vs' = members t.id_node n home vs in
      grind
        (arith, home_links.uniq e, occurrences-append e us' (e ∷ vs'), occurrences-append e us' vs')

  fast_out : one (fast_of e) t.fast_list + occurrences (fast_of e) (fasts us ++ fasts vs) ≡ 0
  unfolding occurrences
  fast_out =
      let f = fast_of e in
      grind (
        arith,
        all_links.uniq f,
        occurrences-append f (fasts us) (f ∷ fasts vs),
        occurrences-append f (fasts us) (fasts vs),
      )

  -- What the list of another bucket has is not in that of the entry.
  away :
      (i : ℕ)
      → i < n
      → (home == i) ≡ false
      → (z : ℕ) → 0 < one z (burket_at t i) + occurrences z (burket t i (us ++ vs))
      → occurrences z
          (burket_at t home ∷ (members t.id_node n home us ++ (e ∷ members t.id_node n home vs)))
        ≡ 0
  unfolding occurrences
  away i lt there z o =
      let all = us ++ (e ∷ vs) in
      let there' = members_without t.id_node n i us e vs there in
      let o' : 0 < one z (burket_at t i) + occurrences z (burket t i all) =
        subst (λ w. 0 < one z (burket_at t i) + occurrences z w) (sym there') o in
      let ne : i ≢ home = λ eq. grind (arith, eq, there) in
      ap (λ w. one z (burket_at t home) + occurrences z w)
        (sym (members_with t.id_node n home us e vs (ground arith)))
      ∙ burkets_apart t all is i home z lt at_home ne o'

  module _ (h f : Heap)
      (home' : IsDlist h
        (burket_at t home)
        (members t.id_node n home us ++ members t.id_node n home vs))
      (o : Only
        (burket_at t home ∷ (members t.id_node n home us ++ (e ∷ members t.id_node n home vs)))
        t.entries
        h)
      (all' : IsDlist f t.fast_list (fasts us ++ fasts vs))
      (o' : Only (t.fast_list ∷ (fasts us ++ (fast_of e ∷ fasts vs))) t.fast f) where
    burkets_after :
        (i : ℕ) → i < n → IsDlist (after h f).entries (burket_at t i) (burket t i (us ++ vs))
    unfolding free_entry occurrences
    burkets_after i lt = elim (Bool-cases (home == i)) [
      | inl here ↦
          let at_i : home ≡ i = (==_iff home i).0 here in
          subst (λ i. IsDlist (after h f).entries (burket_at t i) (burket t i (us ++ vs))) at_i
            (subst (IsDlist (after h f).entries (burket_at t home))
              (sym (members-append t.id_node n home us vs)) (IsDlist-freed e e_out home'))
      | inr there ↦
          IsDlist-agree (burket t i (us ++ vs))
            (λ z o_z.
              let out = away i lt there z o_z in
              let other : (z == e) ≡ false = grind (
                arith,
                out,
                occurrences-append z (members t.id_node n home us)
                    (e ∷ members t.id_node n home vs),
              ) in
              (o.same_next z out, o.same_prev z out, rw other (o.same_live z)))
            (subst (IsDlist t.entries (burket_at t i)) (members_without t.id_node n i us e vs there)
              (is.burkets i lt))
    ]

    brother_after :
        (z : ℕ) → 0 < occurrences z (us ++ vs) → (after h f).brothers.live (brother_of z) ≡ true
    unfolding free_entry
    brother_after z i = grind (arith, i, once z, is.brother_live z)

    number_after : (after h f).number_of_node ≡ u32 (length (us ++ vs))
    number_after = omega (arith, is.number, length-append us vs, length-append us (e ∷ vs))

    fast_after : IsDlist (after h f).fast t.fast_list (fasts (us ++ vs))
    unfolding free_entry
    fast_after =
        subst (IsDlist (after h f).fast t.fast_list) (sym (fasts-append us vs))
          (IsDlist-freed (fast_of e) fast_out all')

    discarded : IsTable (after h f) (us ++ vs)
    unfolding free_entry
    discarded = record {
      some_burkets = is.some_burkets;
      burkets = burkets_after;
      fast_links = fast_after;
      no_head = λ i lt. omega (arith, is.no_head i lt, once (burket_at t i));
      uniq = λ z. omega (arith, once z);
      not_null = λ z i. is.not_null z (omega (arith, i, once z));
      brother_live = brother_after;
      ids = λ x y i j. is.ids x y (omega (arith, i, once x)) (omega (arith, j, once y));
      number = number_after;
    }

  pub discard_lem :
      (t' : HashTable) × (discard e t ≡ some t')
      × IsTable t' (us ++ vs)
      × Kept t t'
      × Freed t t' (e ∷ [])
  unfolding discard free_entry occurrences
  discard_lem =
      let (u, uf) =
        unlink_lem t.entries (burket_at t home) (members t.id_node n home us) e
          (members t.id_node n home vs) home_links in
      let (u', uf') = unlink_lem t.fast t.fast_list (fasts us) (fast_of e) (fasts vs) all_links in
      let (h, run, home', self, o) = u in
      let (f, run', all', self', o') = uf' in
      (
        after h f,
        rw (run, discard, run') refl,
        discarded h f home' o all' o',
        record {
          same_id = refl;
          same_bytes = refl;
          same_size = refl;
          same_number = refl;
          same_table = refl;
          same_list = refl;
        },
        record {
          gone = λ z i. ground (arith, i);
          others = λ z d. ground (arith, d, o.same_live z);
        },
      )
