-- ===== src/HashTable/Frame.antt =====
-- Lists of dlist.h on a heap that changed elsewhere, or where a block came or went.
use struct.Base.{
  ℕ, ◌+◌, ◌<◌, ◌≡◌, ◌∙◌, inl, inr, ==_iff, Bool-cases, refl, ap, arith, true, false, List, [], ◌∷◌,
  ◌++◌, ◌==◌, one, occurrences, occurrences-append,
}
use struct.Dlist.{Heap, write}
use struct.Dlist.Seg.{Seg-frame, last-append, sources_count, IsDlist}
use struct.HashTable.{with_live, write_at}

-- A list stays on a heap that has the same at each of its nodes.
pub IsDlist-agree :
    {h h' : Heap} {list : ℕ} (xs : List ℕ)
    → ((z : ℕ)
        → 0 < one z list + occurrences z xs
        → (h'.next z ≡ h.next z) × (h'.prev z ≡ h.prev z) × (h'.live z ≡ h.live z))
    → IsDlist h list xs
    → IsDlist h' list xs
unfolding occurrences
IsDlist-agree {h} {h'} {list} xs same is = record {
  links =
      Seg-frame h h' list (xs ++ (list ∷ []))
        (λ z i.
          (same z (
            ground (
              arith,
              i,
              sources_count z list (xs ++ (list ∷ [])),
              last-append list xs list [],
              occurrences-append z xs (list ∷ []),
            ))).0)
        (λ z i. (same z (omega (arith, i, occurrences-append z xs (list ∷ [])))).1) is.links;
  uniq = is.uniq;
  alive = λ z i. (same z i).2 ∙ is.alive z i;
}

pub IsDlist-nil :
    {h : Heap} {list : ℕ}
    → h.next list ≡ list
    → h.prev list ≡ list
    → h.live list ≡ true
    → IsDlist h list []
unfolding occurrences
IsDlist-nil {h} {list} next prev live = record {
  links = ((next, prev), tt);
  uniq = λ z. ground arith;
  alive = λ z o. grind (arith, o, live);
}

-- A node of a list and one that is none differ.
pub apart_by : (f : ℕ → ℕ) (z e : ℕ) → 0 < f z → f e ≡ 0 → (z == e) ≡ false
apart_by f z e i free = elim (Bool-cases (z == e)) [
  | inl same ↦ absurd (omega (arith, i, ap f ((==_iff z e).0 same), free))
  | inr differ ↦ differ
]

-- A list stays when a block that it does not use is freed, and when one comes.
pub IsDlist-freed :
    {h : Heap} {list : ℕ} {xs : List ℕ} (e : ℕ)
    → one e list + occurrences e xs ≡ 0
    → IsDlist h list xs
    → IsDlist (with_live false e h) list xs
IsDlist-freed {h} {list} {xs} e free = IsDlist-agree xs λ z i.
    let differ = apart_by (λ w. one w list + occurrences w xs) z e i free in
    (refl, refl, rw differ refl)

pub IsDlist-made :
    {h : Heap} {list : ℕ} {xs : List ℕ} (e : ℕ)
    → one e list + occurrences e xs ≡ 0
    → IsDlist h list xs
    → IsDlist
        (record h {
          live = write_at h.live e true;
          next = write h.next e 0;
          prev = write h.prev e 0;
        })
        list
        xs
IsDlist-made {h} {list} {xs} e free = IsDlist-agree xs λ z i.
    let differ = apart_by (λ w. one w list + occurrences w xs) z e i free in
    (rw differ refl, rw differ refl, rw differ refl)

-- A block that is not in use is in no list.
pub dead_free :
    {h : Heap} {list : ℕ} (xs : List ℕ) (p : ℕ)
    → h.live p ≡ false
    → IsDlist h list xs
    → one p list + occurrences p xs ≡ 0
dead_free {h} {list} xs p dead is = grind (arith, dead, is.alive p)
