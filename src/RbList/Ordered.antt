-- ===== src/RbList/Ordered.antt =====
-- What a sorted list is for its users: a set of keys in a linear order.
pub mod Refine
use struct.Base.{
  ℕ, ◌≡◌, ◌⊎◌, inl, inr, ◌∙◌, refl, sym, ap, Bool, true, false, List, [], ◌∷◌, ◌++◌, All,
  All-append, All-append_intro, All_mono,
}
use mathlib.Core.List.{map, map-append}
use Prim.Native.Nat.{Ordering}

-- A linear order, by a comparison.
pub record Order {K : Type 0} (cmp : K → K → Ordering) : Type 0 where
  pub eq_same : (a b : K) → cmp a b ≡ Ordering.eq → a ≡ b
  pub same_eq : (a : K) → cmp a a ≡ Ordering.eq
  pub lt-gt : (a b : K) → cmp a b ≡ Ordering.lt → cmp b a ≡ Ordering.gt
  pub gt-lt : (a b : K) → cmp a b ≡ Ordering.gt → cmp b a ≡ Ordering.lt
  pub lt_trans : (a b c : K) → cmp a b ≡ Ordering.lt → cmp b c ≡ Ordering.lt → cmp a c ≡ Ordering.lt

pub Ordering-cases : (o : Ordering) → (o ≡ Ordering.lt) ⊎ ((o ≡ Ordering.eq) ⊎ (o ≡ Ordering.gt))
Ordering-cases Ordering.lt = inl refl
Ordering-cases Ordering.eq = inr (inl refl)
Ordering-cases Ordering.gt = inr (inr refl)

-- The set as a list in ascending order: the specification.
module _ {K : Type 0} (cmp : K → K → Ordering) where
  abbrev pub Sorted : List K → Type 0
  Sorted [] = Unit
  Sorted (v ∷ vs) = All (λ w. cmp v w ≡ Ordering.lt) vs × Sorted vs

  unfoldable pub member : K → List K → Bool
  member v [] = false
  member v (w ∷ vs) = elim (cmp w v) [ Ordering.eq ↦ true | _ ↦ member v vs ]

  unfoldable pub insert : K → List K → List K
  insert v [] = v ∷ []
  insert v (w ∷ vs) = elim (cmp w v) [
    | Ordering.lt ↦ w ∷ insert v vs
    | Ordering.eq ↦ w ∷ vs
    | Ordering.gt ↦ v ∷ w ∷ vs
  ]

  unfoldable pub discard : K → List K → List K
  discard v [] = []
  discard v (w ∷ vs) = elim (cmp w v) [ Ordering.eq ↦ discard v vs | _ ↦ w ∷ discard v vs ]

  -- A key that the set does not have is not taken out.
  pub discard-member : (v : K) (vs : List K) → member v vs ≡ false → discard v vs ≡ vs
  unfolding member discard
  discard-member v [] e = refl
  discard-member v (w ∷ vs) e = elim (Ordering-cases (cmp w v)) [
    | inl o ↦ rw (o, discard) (ap (λ u. w ∷ u) (discard-member v vs (rw (o, member) at e)))
    | inr (inl o) ↦ absurd (cc (rw (o, member) at e))
    | inr (inr o) ↦ rw (o, discard) (ap (λ u. w ∷ u) (discard-member v vs (rw (o, member) at e)))
  ]

-- Where a key stands among sorted nodes, whose keys are `key`.
module _ {K : Type 0} (cmp : K → K → Ordering) (key : ℕ → K) (v : K) where
  abbrev pub Below : ℕ → Type 0
  Below q = cmp (key q) v ≡ Ordering.lt

  abbrev pub Above : ℕ → Type 0
  Above q = cmp (key q) v ≡ Ordering.gt

  pub data Place (xs : List ℕ) : Type 0 where
    at :
        (ls : List ℕ) (m : ℕ) (rs : List ℕ)
        → xs ≡ ls ++ (m ∷ rs)
        → All Below ls
        → cmp (key m) v ≡ Ordering.eq
        → All Above rs
        → Place xs
    gap : (ls rs : List ℕ) → xs ≡ ls ++ rs → All Below ls → All Above rs → Place xs

module _ {K : Type 0} (cmp : K → K → Ordering) (ord : Order cmp) (key : ℕ → K) (v : K) where
  rest-Above :
      (x : ℕ) (xs : List ℕ)
      → (cmp v (key x) ≡ Ordering.lt) ⊎ (v ≡ key x)
      → All (λ w. cmp (key x) w ≡ Ordering.lt) (map key xs)
      → All (Above cmp key v) xs
  rest-Above x [] h s = tt
  rest-Above x (y ∷ xs) (inl h) (p, s) =
      (ord.lt-gt v (key y) (ord.lt_trans v (key x) (key y) h p), rest-Above x xs (inl h) s)
  rest-Above x (y ∷ xs) (inr h) (p, s) =
      (ord.lt-gt v (key y) (ap (λ w. cmp w (key y)) h ∙ p), rest-Above x xs (inr h) s)

  pub place : (xs : List ℕ) → Sorted cmp (map key xs) → Place cmp key v xs
  place [] s = gap [] [] refl tt tt
  place (x ∷ xs) (p, s) = elim (Ordering-cases (cmp (key x) v)) [
    | inl lt ↦ behind lt (place xs s)
    | inr (inl eq) ↦
        at [] x xs refl tt eq (rest-Above x xs (inr (sym (ord.eq_same (key x) v eq))) p)
    | inr (inr gt) ↦ gap [] (x ∷ xs) refl tt (gt, rest-Above x xs (inl (ord.gt-lt (key x) v gt)) p)
  ]
    where
      behind : Below cmp key v x → Place cmp key v xs → Place cmp key v (x ∷ xs)
      behind lt (at ls m rs e l c g) = at (x ∷ ls) m rs (ap (λ w. x ∷ w) e) (lt, l) c g
      behind lt (gap ls rs e l g) = gap (x ∷ ls) rs (ap (λ w. x ∷ w) e) (lt, l) g

  -- What the specification does at such a place.
  pub member_at :
      (ls : List ℕ) (m : ℕ) (rs : List ℕ)
      → All (Below cmp key v) ls
      → cmp (key m) v ≡ Ordering.eq
      → member cmp v (map key (ls ++ (m ∷ rs))) ≡ true
  unfolding member
  member_at [] m rs l c = rw c refl
  member_at (a ∷ ls) m rs (p, l) c = rw p (member_at ls m rs l c)

  pub member_gap :
      (ls rs : List ℕ)
      → All (Below cmp key v) ls
      → All (Above cmp key v) rs
      → member cmp v (map key (ls ++ rs)) ≡ false
  unfolding member
  member_gap [] [] l g = refl
  member_gap [] (b ∷ rs) l (p, g) = rw p (member_gap [] rs l g)
  member_gap (a ∷ ls) rs (p, l) g = rw p (member_gap ls rs l g)

  pub insert_gap :
      (ls rs : List ℕ)
      → All (Below cmp key v) ls
      → All (Above cmp key v) rs
      → insert cmp v (map key (ls ++ rs)) ≡ map key ls ++ (v ∷ map key rs)
  unfolding insert
  insert_gap [] [] l g = refl
  insert_gap [] (b ∷ rs) l (p, g) = rw p refl
  insert_gap (a ∷ ls) rs (p, l) g = rw p (ap (λ w. key a ∷ w) (insert_gap ls rs l g))

  pub discard_gap :
      (ls rs : List ℕ)
      → All (Below cmp key v) ls
      → All (Above cmp key v) rs
      → discard cmp v (map key (ls ++ rs)) ≡ map key (ls ++ rs)
  unfolding discard
  discard_gap [] [] l g = refl
  discard_gap [] (b ∷ rs) l (p, g) = rw p (ap (λ w. key b ∷ w) (discard_gap [] rs l g))
  discard_gap (a ∷ ls) rs (p, l) g = rw p (ap (λ w. key a ∷ w) (discard_gap ls rs l g))

  pub discard_at :
      (ls : List ℕ) (m : ℕ) (rs : List ℕ)
      → All (Below cmp key v) ls
      → cmp (key m) v ≡ Ordering.eq
      → All (Above cmp key v) rs
      → discard cmp v (map key (ls ++ (m ∷ rs))) ≡ map key (ls ++ rs)
  unfolding discard
  discard_at [] m rs l c g = rw c (discard_gap [] rs tt g)
  discard_at (a ∷ ls) m rs (p, l) c g = rw p (ap (λ w. key a ∷ w) (discard_at ls m rs l c g))

  -- A key that is put into its gap leaves a sorted list, and so does one that is taken out.
  pub Sorted-gap :
      (ls rs : List ℕ)
      → All (Below cmp key v) ls
      → All (Above cmp key v) rs
      → Sorted cmp (map key (ls ++ rs))
      → Sorted cmp (map key ls ++ (v ∷ map key rs))
  Sorted-gap [] rs l g s = (above_keys rs g, s)
    where
      above_keys :
          (rs : List ℕ) → All (Above cmp key v) rs → All (λ w. cmp v w ≡ Ordering.lt) (map key rs)
      above_keys [] g = tt
      above_keys (b ∷ rs) (p, g) = (ord.gt-lt (key b) v p, above_keys rs g)
  Sorted-gap (a ∷ ls) rs (p, l) g (q, s) = (with_key ls rs p q, Sorted-gap ls rs l g s)
    where
      with_key :
          (ls rs : List ℕ)
          → cmp (key a) v ≡ Ordering.lt
          → All (λ w. cmp (key a) w ≡ Ordering.lt) (map key (ls ++ rs))
          → All (λ w. cmp (key a) w ≡ Ordering.lt) (map key ls ++ (v ∷ map key rs))
      with_key [] rs p q = (p, q)
      with_key (x ∷ ls) rs p (r, q) = (r, with_key ls rs p q)

  pub Sorted-cut :
      (ls : List ℕ) (m : ℕ) (rs : List ℕ)
      → Sorted cmp (map key (ls ++ (m ∷ rs)))
      → Sorted cmp (map key (ls ++ rs))
  Sorted-cut [] m rs (q, s) = s
  Sorted-cut (a ∷ ls) m rs (q, s) = (without ls q, Sorted-cut ls m rs s)
    where
      without :
          (ls : List ℕ)
          → All (λ w. cmp (key a) w ≡ Ordering.lt) (map key (ls ++ (m ∷ rs)))
          → All (λ w. cmp (key a) w ≡ Ordering.lt) (map key (ls ++ rs))
      without [] (r, q) = q
      without (x ∷ ls) (r, q) = (r, without ls q)
