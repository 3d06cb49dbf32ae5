-- ===== src/HashTable/Rep.antt =====
-- The hash table of hashtable.cpp with its entries, the last one inserted first, and what it holds
-- as an association list.
use struct.Base.{
  ℕ, ◌+◌, ◌%◌, ◌≤◌, ◌<◌, ◌≡◌, ◌≢◌, refl, ◌∙◌, sym, ap, ap₂, Bool, false, arith, true, Option, none,
  some, List, [], ◌∷◌, ◌++◌, ◌==◌, if◌then◌else◌, one, occurrences, length, u32,
}
use struct.Dlist.Seg.{IsDlist}
use struct.HashTable.{HashTable, burket_at, fast_of, brother_of}

-- The entries of a bucket, in the order of its list.
abbrev pub members : (ℕ → ℕ) → (n i : ℕ) → List ℕ → List ℕ
members id n i [] = []
members id n i (e ∷ es) = let rest = members id n i es in if id e % n == i then e ∷ rest else rest

abbrev pub fasts : List ℕ → List ℕ
fasts [] = []
fasts (e ∷ es) = fast_of e ∷ fasts es

abbrev pub burket : HashTable → ℕ → List ℕ → List ℕ
burket t i es = members t.id_node t.number_of_burkets i es

pub record IsTable (t : HashTable) (es : List ℕ) : Type 0 where
  pub some_burkets : 0 < t.number_of_burkets
  pub burkets :
      (i : ℕ) → i < t.number_of_burkets → IsDlist t.entries (burket_at t i) (burket t i es)
  pub fast_links : IsDlist t.fast t.fast_list (fasts es)
  pub no_head : (i : ℕ) → i < t.number_of_burkets → occurrences (burket_at t i) es ≡ 0
  pub uniq : (z : ℕ) → occurrences z es ≤ 1
  pub not_null : (z : ℕ) → 0 < occurrences z es → z ≢ 0
  pub brother_live : (z : ℕ) → 0 < occurrences z es → t.brothers.live (brother_of z) ≡ true
  pub ids :
      (x y : ℕ) → 0 < occurrences x es → 0 < occurrences y es → t.id_node x ≡ t.id_node y → x ≡ y
  pub number : t.number_of_node ≡ u32 (length es)

-- The association list, from an id to the bytes of its entry and their number.
abbrev pub Items : Type 0
Items = List (ℕ × List ℕ × ℕ)

abbrev pub contents : HashTable → List ℕ → Items
contents t [] = []
contents t (e ∷ es) = (t.id_node e, t.bytes e, t.data_size e) ∷ contents t es

abbrev pub lookup : ℕ → Items → Option (List ℕ × ℕ)
lookup id [] = none
lookup id ((k, bytes, size) ∷ rest) = if k == id then some (bytes, size) else lookup id rest

abbrev pub erase : ℕ → Items → Items
erase id [] = []
erase id ((k, bytes, size) ∷ rest) = if k == id then rest else (k, bytes, size) ∷ erase id rest

pub members_count :
    (id : ℕ → ℕ) (n i z : ℕ) (es : List ℕ)
    → occurrences z (members id n i es) ≡ (if id z % n == i then occurrences z es else 0)
unfolding occurrences
members_count id n i z [] = ground arith
members_count id n i z (e ∷ es) = ground (arith, members_count id n i z es)

pub length-members : (id : ℕ → ℕ) (n i : ℕ) (es : List ℕ) → length (members id n i es) ≤ length es
length-members id n i [] = omega arith
length-members id n i (e ∷ es) = ground (arith, length-members id n i es)

pub fasts_count : (z : ℕ) (es : List ℕ) → occurrences (fast_of z) (fasts es) ≡ occurrences z es
unfolding occurrences
fasts_count z [] = refl
fasts_count z (e ∷ es) = ground (arith, fasts_count z es)

pub members-append :
    (id : ℕ → ℕ) (n i : ℕ) (xs ys : List ℕ)
    → members id n i (xs ++ ys) ≡ members id n i xs ++ members id n i ys
members-append id n i [] ys = refl
members-append id n i (x ∷ xs) ys =
    by (id x % n == i) (members id n i xs) (members id n i ys) (members-append id n i xs ys)
  where
    by :
        {ps : List ℕ} (b : Bool) (bs cs : List ℕ)
        → ps ≡ bs ++ cs
        → (if b then x ∷ ps else ps) ≡ (if b then x ∷ bs else bs) ++ cs
    by true bs cs same = ap (λ w. x ∷ w) same
    by false bs cs same = same

pub fasts-append : (xs ys : List ℕ) → fasts (xs ++ ys) ≡ fasts xs ++ fasts ys
fasts-append [] ys = refl
fasts-append (x ∷ xs) ys = ap (λ w. fast_of x ∷ w) (fasts-append xs ys)

-- An entry that goes leaves the buckets that it is not in.
pub members_without :
    (id : ℕ → ℕ) (n i : ℕ) (us : List ℕ) (e : ℕ) (vs : List ℕ)
    → (id e % n == i) ≡ false
    → members id n i (us ++ (e ∷ vs)) ≡ members id n i (us ++ vs)
members_without id n i us e vs other =
    members-append id n i us (e ∷ vs)
    ∙ ap (λ b. members id n i us ++ (if b then e ∷ members id n i vs else members id n i vs)) other
    ∙ sym (members-append id n i us vs)

-- A bucket and the contents are what the entries' ids and bytes are.
pub members_same :
    (id id' : ℕ → ℕ) (n i : ℕ) (es : List ℕ)
    → ((z : ℕ) → 0 < occurrences z es → id' z ≡ id z)
    → members id' n i es ≡ members id n i es
unfolding occurrences
members_same id id' n i [] same = refl
members_same id id' n i (e ∷ es) same =
    ap₂ (λ k rest. if k % n == i then e ∷ rest else rest) (same e (ground arith))
      (members_same id id' n i es (λ z o. same z (omega arith)))

pub contents_same :
    (t t' : HashTable) (es : List ℕ)
    → ((z : ℕ)
        → 0 < occurrences z es
        → (t'.id_node z ≡ t.id_node z)
          × (t'.bytes z ≡ t.bytes z)
          × (t'.data_size z ≡ t.data_size z))
    → contents t' es ≡ contents t es
unfolding occurrences
contents_same t t' [] same = refl
contents_same t t' (e ∷ es) same =
    let (k, b, s) = same e (ground arith) in
    ap₂ (λ w rest. w ∷ rest) (λ i. (k i, b i, s i))
      (contents_same t t' es (λ z o. same z (omega arith)))

pub members_with :
    (id : ℕ → ℕ) (n i : ℕ) (us : List ℕ) (e : ℕ) (vs : List ℕ)
    → (id e % n == i) ≡ true
    → members id n i (us ++ (e ∷ vs)) ≡ members id n i us ++ (e ∷ members id n i vs)
members_with id n i us e vs here =
    members-append id n i us (e ∷ vs)
    ∙ ap (λ b. members id n i us ++ (if b then e ∷ members id n i vs else members id n i vs)) here

module _ (t : HashTable) (es : List ℕ) (is : IsTable t es) where
  head_out : (i z : ℕ) → i < t.number_of_burkets → z ≡ burket_at t i → occurrences z es ≡ 0
  head_out i z lt eq = ap (λ w. occurrences w es) eq ∙ is.no_head i lt

  -- No node is in the lists of two buckets.
  pub burkets_apart :
      (i j z : ℕ)
      → i < t.number_of_burkets
      → j < t.number_of_burkets
      → i ≢ j
      → 0 < one z (burket_at t i) + occurrences z (burket t i es)
      → one z (burket_at t j) + occurrences z (burket t j es) ≡ 0
  burkets_apart i j z lti ltj ne o =
      let n = t.number_of_burkets in
      let ci = members_count t.id_node n i z es in
      let cj = members_count t.id_node n j z es in
      grind (arith, ci, cj, head_out i z lti, head_out j z ltj, o, ne)

  pub entry_live : (z : ℕ) → 0 < occurrences z es → t.entries.live z ≡ true
  entry_live z o =
      let n = t.number_of_burkets in
      let i = t.id_node z % n in
      let lt : i < n = omega (arith, is.some_burkets) in
      let links = is.burkets i lt in
      links.alive z (ground (arith, members_count t.id_node n i z es, o))
