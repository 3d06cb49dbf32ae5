-- ===== src/Dlist/Seg.antt =====
-- Chains of nodes on the heap of dlist.h, and the circular lists that they make up.
use struct.Base.{
  ℕ, ◌+◌, ◌≤◌, ◌<◌, ◌≡◌, ◌∙◌, refl, arith, true, List, [], ◌∷◌, ◌++◌, one, occurrences,
  occurrences-append,
}
use struct.Dlist.{Heap}

abbrev pub Linked : Heap → ℕ → ℕ → Type 0
Linked h a b = (h.next a ≡ b) × (h.prev b ≡ a)

-- From `a` the links lead along `xs`, forth and back.
abbrev pub Seg : Heap → ℕ → List ℕ → Type 0
Seg h a [] = Unit
Seg h a (x ∷ xs) = Linked h a x × Seg h x xs

-- Where the chain ends, and the nodes whose `next` it uses.
abbrev pub last : ℕ → List ℕ → ℕ
last a [] = a
last a (x ∷ xs) = last x xs

abbrev pub sources : ℕ → List ℕ → List ℕ
sources a [] = []
sources a (x ∷ xs) = a ∷ sources x xs

pub sources_count :
    (z a : ℕ) (xs : List ℕ)
    → occurrences z (sources a xs) + one z (last a xs) ≡ one z a + occurrences z xs
unfolding occurrences
sources_count z a [] = omega arith
sources_count z a (x ∷ xs) = omega (arith, sources_count z x xs)

pub last-append : (a : ℕ) (xs : List ℕ) (b : ℕ) (ys : List ℕ) → last a (xs ++ (b ∷ ys)) ≡ last b ys
last-append a [] b ys = refl
last-append a (x ∷ xs) b ys = last-append x xs b ys

pub Seg-split :
    (h : Heap) (a : ℕ) (xs ys : List ℕ) → Seg h a (xs ++ ys) → Seg h a xs × Seg h (last a xs) ys
Seg-split h a [] ys s = (tt, s)
Seg-split h a (x ∷ xs) ys (l, s) = let (s1, s2) = Seg-split h x xs ys s in ((l, s1), s2)

pub Seg-join :
    (h : Heap) (a : ℕ) (xs ys : List ℕ) → Seg h a xs → Seg h (last a xs) ys → Seg h a (xs ++ ys)
Seg-join h a [] ys s1 s2 = s2
Seg-join h a (x ∷ xs) ys (l, s1) s2 = (l, Seg-join h x xs ys s1 s2)

pub Seg-frame :
    (h h' : Heap) (a : ℕ) (xs : List ℕ)
    → ((z : ℕ) → 0 < occurrences z (sources a xs) → h'.next z ≡ h.next z)
    → ((z : ℕ) → 0 < occurrences z xs → h'.prev z ≡ h.prev z)
    → Seg h a xs
    → Seg h' a xs
unfolding occurrences
Seg-frame h h' a [] n p s = tt
Seg-frame h h' a (x ∷ xs) n p ((e, f), s) = (
  (n a (ground arith) ∙ e, p x (ground arith) ∙ f),
  Seg-frame h h' x xs (λ z i. n z (omega arith)) (λ z i. p z (omega arith)) s,
)

-- The list with the head `list` has the entries `xs`.
pub record IsDlist (h : Heap) (list : ℕ) (xs : List ℕ) : Type 0 where
  pub links : Seg h list (xs ++ (list ∷ []))
  pub uniq : (z : ℕ) → one z list + occurrences z xs ≤ 1
  pub alive : (z : ℕ) → 0 < one z list + occurrences z xs → h.live z ≡ true

-- Of the links, only those of the nodes `zs` may have changed.
pub record Only (zs : List ℕ) (h h' : Heap) : Type 0 where
  pub same_next : (z : ℕ) → occurrences z zs ≡ 0 → h'.next z ≡ h.next z
  pub same_prev : (z : ℕ) → occurrences z zs ≡ 0 → h'.prev z ≡ h.prev z
  pub same_live : (z : ℕ) → h'.live z ≡ h.live z

-- A list none of whose nodes changed stays.
pub IsDlist-frame :
    (h h' : Heap) (zs : List ℕ) (list : ℕ) (xs : List ℕ)
    → Only zs h h'
    → ((z : ℕ) → 0 < one z list + occurrences z xs → occurrences z zs ≡ 0)
    → IsDlist h list xs
    → IsDlist h' list xs
unfolding occurrences
IsDlist-frame h h' zs list xs o apart is = record {
  links =
      Seg-frame h h' list (xs ++ (list ∷ []))
        (λ z i. o.same_next z (
          apart z (
            ground (
              arith,
              i,
              sources_count z list (xs ++ (list ∷ [])),
              last-append list xs list [],
              occurrences-append z xs (list ∷ []),
            ))))
        (λ z i. o.same_prev z (apart z (omega (arith, i, occurrences-append z xs (list ∷ [])))))
        is.links;
  uniq = is.uniq;
  alive = λ z i. o.same_live z ∙ is.alive z i;
}

pub Only-trans :
    {h h1 h2 : Heap} (zs ws big : List ℕ)
    → ((z : ℕ) → occurrences z big ≡ 0 → (occurrences z zs ≡ 0) × (occurrences z ws ≡ 0))
    → Only zs h h1
    → Only ws h1 h2
    → Only big h h2
Only-trans zs ws big sub o1 o2 = record {
  same_next = λ z i. o2.same_next z (sub z i).1 ∙ o1.same_next z (sub z i).0;
  same_prev = λ z i. o2.same_prev z (sub z i).1 ∙ o1.same_prev z (sub z i).0;
  same_live = λ z. o2.same_live z ∙ o1.same_live z;
}
