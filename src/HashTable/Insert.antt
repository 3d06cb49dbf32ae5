-- ===== src/HashTable/Insert.antt =====
-- An entry of hashtable.cpp that comes.
use struct.Base.{
  ℕ, ◌+◌, ◌%◌, ◌<◌, ◌≡◌, ◌≢◌, inl, inr, refl, ◌∙◌, sym, ap, subst, false, arith, true, some, List,
  ◌∷◌, ◌==◌, one, occurrences, Bool-cases, ==_iff, u32,
}
use struct.Dlist.{Heap, ◌>>◌, with_prev, with_next}
use struct.Dlist.Seg.{IsDlist, IsDlist-frame, Only}
use struct.HashTable.{
  HashTable, success, burket_at, fast_of, brother_of, fresh_entry, insert_at, link_brother,
  write_at,
}
use struct.HashTable.Frame.{IsDlist-made, apart_by, dead_free}
use struct.HashTable.Links.{link_entry_lem, link_fast_lem}
use struct.HashTable.Rep.{
  burket, fasts, IsTable, contents, members_same, contents_same, fasts_count, burkets_apart,
}

-- `malloc` returns a block that is not in use.
pub record Fresh (t : HashTable) (e : ℕ) : Type 0 where
  pub not_nil : e ≢ 0
  pub no_entry : t.entries.live e ≡ false
  pub no_fast : t.fast.live (fast_of e) ≡ false

module _ (t : HashTable) (es : List ℕ) (is : IsTable t es) (e : ℕ) (new : Fresh t e) where
  pub fast_free : one (fast_of e) t.fast_list + occurrences (fast_of e) (fasts es) ≡ 0
  fast_free = dead_free (fasts es) (fast_of e) new.no_fast is.fast_links

  pub out : occurrences e es ≡ 0
  out = omega (arith, fasts_count e es, fast_free)

  pub burket_free :
      (i : ℕ) → i < t.number_of_burkets → one e (burket_at t i) + occurrences e (burket t i es) ≡ 0
  burket_free i lt = dead_free (burket t i es) e new.no_entry (is.burkets i lt)

  other : (z : ℕ) → 0 < occurrences z es → (z == e) ≡ false
  other z o = apart_by (λ w. occurrences w es) z e o out

  module _ (id : ℕ) (bytes : List ℕ) where
    abbrev made : HashTable
    made = fresh_entry e id bytes t

    pub burket-made : (i : ℕ) → burket made i es ≡ burket t i es
    unfolding fresh_entry
    burket-made i =
        members_same t.id_node made.id_node t.number_of_burkets i es (λ z o. rw (other z o) refl)

    pub contents-made : contents made es ≡ contents t es
    unfolding fresh_entry
    contents-made =
        contents_same t made es (λ z o. let d = other z o in (rw d refl, rw d refl, rw d refl))

    pub made_IsTable : IsTable made es
    unfolding fresh_entry
    made_IsTable = record {
      some_burkets = is.some_burkets;
      burkets = λ i lt.
          subst (IsDlist made.entries (burket_at t i)) (sym (burket-made i))
            (IsDlist-made e (burket_free i lt) (is.burkets i lt));
      fast_links = IsDlist-made (fast_of e) fast_free is.fast_links;
      no_head = is.no_head;
      uniq = is.uniq;
      not_null = is.not_null;
      brother_live = λ z o. ground (arith, is.brother_live z o);
      ids = λ x y i j eq. is.ids x y i j (sym (rw (other x i) refl) ∙ eq ∙ rw (other y j) refl);
      number = is.number;
    }

-- The links of a block that is in no list yet.
module _ (t : HashTable) (es : List ℕ) (is : IsTable t es) (e : ℕ) (le : t.entries.live e ≡ true)
    (lf : t.fast.live (fast_of e) ≡ true) (lb : t.brothers.live (brother_of e) ≡ true) (nil : e ≢ 0)
    (free : (i : ℕ)
      → i < t.number_of_burkets
      → one e (burket_at t i) + occurrences e (burket t i es) ≡ 0)
    (out : one (fast_of e) t.fast_list + occurrences (fast_of e) (fasts es) ≡ 0)
    (fresh_id : (z : ℕ) → 0 < occurrences z es → t.id_node z ≢ t.id_node e) where
  abbrev n : ℕ
  n = t.number_of_burkets

  abbrev home : ℕ
  home = t.id_node e % n

  abbrev linked : (h f b : Heap) → HashTable
  linked h f b = record t {
    entries = h;
    fast = f;
    brothers = b;
    child = write_at t.child e 0;
    parent = write_at t.parent e 0;
    number_of_node = u32 (t.number_of_node + 1);
  }

  at_home : home < n
  at_home = omega (arith, is.some_burkets)

  not_in : occurrences e es ≡ 0
  not_in = omega (arith, fasts_count e es, out)

  new_id :
      (x y : ℕ)
      → 0 < one x e + occurrences x es
      → 0 < one y e + occurrences y es
      → t.id_node x ≡ t.id_node y
      → x ≡ y
  new_id x y i j eq = elim (Bool-cases (x == e)) [
    | inl x' ↦ elim (Bool-cases (y == e)) [
      | inl y' ↦ (==_iff x e).0 x' ∙ sym ((==_iff y e).0 y')
      | inr y' ↦ absurd (fresh_id y (ground arith) (sym eq ∙ ap t.id_node ((==_iff x e).0 x')))
    ]
    | inr x' ↦ elim (Bool-cases (y == e)) [
      | inl y' ↦ absurd (fresh_id x (ground arith) (eq ∙ ap t.id_node ((==_iff y e).0 y')))
      | inr y' ↦ is.ids x y (ground arith) (ground arith) eq
    ]
  ]

  module _ (h f b : Heap) (home' : IsDlist h (burket_at t home) (e ∷ burket t home es))
      (o : Only (e ∷ burket_at t home ∷ burket t home es) t.entries h)
      (all' : IsDlist f t.fast_list (fasts (e ∷ es)))
      (same_live : (z : ℕ) → b.live z ≡ t.brothers.live z) where
    burket_linked : (i : ℕ) → i < n → IsDlist h (burket_at t i) (burket t i (e ∷ es))
    unfolding occurrences
    burket_linked i lt = elim (Bool-cases (home == i)) [
      | inl here ↦
          let at_i : home ≡ i = (==_iff home i).0 here in
          subst (λ i. IsDlist h (burket_at t i) (burket t i (e ∷ es))) at_i
            (let self : (home == home) ≡ true = ground arith in rw self home')
      | inr there ↦
          let ne : i ≢ home = λ eq. grind (arith, eq, there) in
          subst (IsDlist h (burket_at t i)) (rw there refl) (
            IsDlist-frame t.entries h (e ∷ burket_at t home ∷ burket t home es) (burket_at t i)
              (burket t i es) o
              (λ z j.
                let differ =
                  apart_by (λ w. one w (burket_at t i) + occurrences w (burket t i es)) z e j
                    (free i lt) in
                ground (arith, differ, burkets_apart t es is i home z lt at_home ne j))
              (is.burkets i lt))
    ]

    linked_IsTable : IsTable (linked h f b) (e ∷ es)
    unfolding occurrences
    linked_IsTable = record {
      some_burkets = is.some_burkets;
      burkets = burket_linked;
      fast_links = all';
      no_head = λ i lt. ground (arith, is.no_head i lt, free i lt);
      uniq = λ z. grind (arith, is.uniq z, not_in);
      not_null = λ z i. grind (arith, i, nil, is.not_null z);
      brother_live = λ z i. same_live (brother_of z) ∙ grind (arith, i, lb, is.brother_live z);
      ids = new_id;
      number = omega (arith, is.number);
    }

  -- The insertion of an id that is not there.
  pub insert_at_lem :
      (t' : HashTable) × (insert_at (burket_at t home) e (burket_at t home) t
        ≡ some (success, some t'))
      × IsTable t' (e ∷ es)
      × (contents t' (e ∷ es) ≡ contents t (e ∷ es))
  unfolding insert_at link_brother
  insert_at_lem =
      let head = burket_at t home in
      let (h, run, home', o) =
        link_entry_lem t.entries head (burket t home es) (is.burkets home at_home) e le
          (free home at_home) in
      let (f, run', all', o') =
        link_fast_lem t.fast t.fast_list (fasts es) is.fast_links (fast_of e) lf out in
      let at_head : (head == head) ≡ true = ground arith in
      let b = brother_of e in
      let t' = linked h f (with_prev b b (with_next b b t.brothers)) in
      (
        t',
        rw (at_head, insert_at, run, run', lb, link_brother, ◌>>◌, lb) refl,
        linked_IsTable h f (with_prev b b (with_next b b t.brothers)) home' o all' (λ z. refl),
        contents_same t t' (e ∷ es) (λ z i. (refl, refl, refl)),
      )
