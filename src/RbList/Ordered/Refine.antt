-- ===== src/RbList/Ordered/Refine.antt =====
-- rblist.cpp on a list whose `node_cmp` compares keys of a linear order: the calls are those of a
-- set of keys.
use struct.Base.{
  ℕ, ◌+◌, ◌<◌, ◌≡◌, ◌≢◌, ◌∙◌, refl, sym, ap, ap₂, subst, true, false, Option, none, some, List, [],
  ◌∷◌, ◌++◌, All, All-append, if◌then◌else◌, u32, not, ◌==◌, arith,
}
use mathlib.Core.List.{map, map-append}
use Prim.Native.Nat.{Ordering}
use struct.RbTree.State.{RbNode, State}
use struct.RbTree.Tree.{Tree, occ}
use struct.RbTree.Walk.Laws.{height}
use struct.RbList.{RbList, Errno, success, eexist, enomem, find, add_node, remove_node}
use struct.RbList.Search.{Less, Greater}
use struct.RbList.Add.{IsList, add_node-eexist, add_node-enomem, add_node-success}
use struct.RbList.Entry.{nodes_ne_null}
use struct.RbTree.Erase.Settle.{ne_false}
use struct.RbList.Remove.{IsDelete, remove_node_lem}
use struct.RbList.Ordered.{
  Order, Sorted, member, insert, discard, Place, at, gap, place, member_at, member_gap, insert_gap,
  discard_at, discard_gap, Sorted-gap, Sorted-cut,
}

-- The list holds the nodes `xs`, with the keys `vs` in ascending order.
pub record IsKeys {K : Type 0} (cmp : K → K → Ordering) (key : ℕ → K) (l : RbList) (t : Tree)
    (xs : List ℕ) (vs : List K) : Type 0 where
  pub list : IsList l t xs
  pub keys : map key xs ≡ vs
  pub sorted : Sorted cmp vs

-- What `rblist__add_node` is to do to the set, where there is memory for a node or not.
abbrev pub spec_add :
    {K : Type 0} → (K → K → Ordering) → K → Option (ℕ × RbNode) → List K → Errno × List K
spec_add cmp v none vs = if member cmp v vs then (eexist, vs) else (enomem, vs)
spec_add cmp v (some new_node) vs =
    if member cmp v vs then (eexist, vs) else (success, insert cmp v vs)

abbrev pub key_after : {K : Type 0} → Errno → (ℕ → K) → (ℕ → K) → ℕ → K
key_after success key key' = key'
key_after eexist key key' = key
key_after enomem key key' = key

some_inj : {a b : ℕ} → some a ≡ some b → a ≡ b
some_inj e = cc e

-- A new node is one that the list does not have.
abbrev pub IsNew : Option (ℕ × RbNode) → Tree → Type 0
IsNew none t = Unit
IsNew (some (nd, n)) t = (nd ≢ 0) × (occ nd t ≡ 0)

abbrev pub counted : Errno → ℕ → ℕ
counted success n = u32 (n + 1)
counted eexist n = n
counted enomem n = n

module _ {K : Type 0} (cmp : K → K → Ordering) (ord : Order cmp) (key : ℕ → K) (v : K)
    (node_cmp : ℕ → Ordering) where
  -- The user's comparison is that of the keys.
  abbrev pub Agrees : List ℕ → Type 0
  Agrees xs = All (λ q. node_cmp q ≡ cmp (key q) v) xs

  carry :
      (o : Ordering) (xs : List ℕ)
      → Agrees xs
      → All (λ q. cmp (key q) v ≡ o) xs
      → All (λ q. node_cmp q ≡ o) xs
  carry o [] a h = tt
  carry o (x ∷ xs) (a, ag) (h, hs) = (a ∙ h, carry o xs ag hs)

  place_in :
      {l : RbList} {t : Tree} {xs : List ℕ} {vs : List K}
      → IsKeys cmp key l t xs vs
      → Place cmp key v xs
  place_in {xs} s = place cmp ord key v xs (subst (Sorted cmp) (sym s.keys) s.sorted)

  module _ (fuel : ℕ) (l : RbList) (t : Tree) (xs : List ℕ) (vs : List K) (h : height t < fuel)
      (set : IsKeys cmp key l t xs vs) (agrees : Agrees xs) where
    -- What is known of the list where the key stands.
    map_same :
        (key' : ℕ → K) (ws : List ℕ) → All (λ q. key' q ≡ key q) ws → map key' ws ≡ map key ws
    map_same key' [] same = refl
    map_same key' (x ∷ ws) (e, same) = ap₂ (λ a b. a ∷ b) e (map_same key' ws same)

    pub data Lookup : Type 0 where
      stands :
          (ls : List ℕ) (m : ℕ) (rs : List ℕ)
          → IsList l t (ls ++ (m ∷ rs))
          → (find node_cmp fuel l ≡ some m)
          → ((new_node : Option (ℕ × RbNode))
              → add_node node_cmp fuel new_node l ≡ some (eexist, l))
          → key m ≡ v
          → member cmp v vs ≡ true
          → discard cmp v vs ≡ map key (ls ++ rs)
          → Sorted cmp (map key (ls ++ rs))
          → Lookup
      absent :
          (ls rs : List ℕ)
          → IsList l t (ls ++ rs)
          → (xs ≡ ls ++ rs)
          → All (Less node_cmp) ls
          → All (Greater node_cmp) rs
          → member cmp v vs ≡ false
          → insert cmp v vs ≡ map key ls ++ (v ∷ map key rs)
          → discard cmp v vs ≡ vs
          → Sorted cmp (map key ls ++ (v ∷ map key rs))
          → Lookup

    pub look_up : Lookup
    look_up = from (place_in set)
      where
        from : Place cmp key v xs → Lookup
        from (at ls m rs e lt c gt) =
            let is : IsList l t (ls ++ (m ∷ rs)) = subst (IsList l t) e set.list in
            let keys : vs ≡ map key (ls ++ (m ∷ rs)) = sym set.keys ∙ ap (map key) e in
            let ag = All-append _ ls (m ∷ rs) (subst Agrees e agrees) in
            let found =
              add_node-eexist node_cmp fuel l t h ls m rs none is (carry Ordering.lt ls ag.0 lt)
                (ag.1.0 ∙ c) (carry Ordering.gt rs ag.1.1 gt) in
            stands ls m rs is found.0
              (λ new_node.
                (add_node-eexist node_cmp fuel l t h ls m rs new_node is
                  (carry Ordering.lt ls ag.0 lt) (ag.1.0 ∙ c) (carry Ordering.gt rs ag.1.1 gt)).1)
              (ord.eq_same (key m) v c)
              (ap (member cmp v) keys ∙ member_at cmp ord key v ls m rs lt c)
              (ap (discard cmp v) keys ∙ discard_at cmp ord key v ls m rs lt c gt)
              (Sorted-cut cmp ord key v ls m rs (subst (Sorted cmp) keys set.sorted))
        from (gap ls rs e lt gt) =
            let keys : vs ≡ map key (ls ++ rs) = sym set.keys ∙ ap (map key) e in
            let ag = All-append _ ls rs (subst Agrees e agrees) in
            absent ls rs (subst (IsList l t) e set.list) e (carry Ordering.lt ls ag.0 lt)
              (carry Ordering.gt rs ag.1 gt)
              (ap (member cmp v) keys ∙ member_gap cmp ord key v ls rs lt gt)
              (ap (insert cmp v) keys ∙ insert_gap cmp ord key v ls rs lt gt)
              (ap (discard cmp v) keys ∙ discard_gap cmp ord key v ls rs lt gt ∙ sym keys)
              (Sorted-gap cmp ord key v ls rs lt gt (subst (Sorted cmp) keys set.sorted))

    node_ne : (ls : List ℕ) (m : ℕ) (rs : List ℕ) → IsList l t (ls ++ (m ∷ rs)) → m ≢ 0
    node_ne ls m rs is =
        (All-append (λ x. x ≢ 0) ls (m ∷ rs)
          (subst (All (λ x. x ≢ 0)) is.order (nodes_ne_null l.entries.cell 0 t is.holds.rep))).1.0

    missing_node :
        (ls rs : List ℕ)
        → IsList l t (ls ++ rs)
        → All (Less node_cmp) ls
        → All (Greater node_cmp) rs
        → (find node_cmp fuel l ≡ some 0) × (add_node node_cmp fuel none l ≡ some (enomem, l))
    missing_node ls rs is lt gt = add_node-enomem node_cmp fuel l t h ls rs is lt gt

    -- rblist__find returns a node exactly when the set has the key, and then one with that key.
    pub find_refines :
        (q : ℕ) × (find node_cmp fuel l ≡ some q)
        × (not (q == 0) ≡ member cmp v vs)
        × ((q ≢ 0) → key q ≡ v)
    find_refines = from look_up
      where
        from :
            Lookup
            → (q : ℕ) × (find node_cmp fuel l ≡ some q)
              × (not (q == 0) ≡ member cmp v vs)
              × ((q ≢ 0) → key q ≡ v)
        from (stands ls m rs is f a k mem dis sorted) =
            let f0 : (m == 0) ≡ false = ne_false m (node_ne ls m rs is) in
            (m, f, ap not f0 ∙ sym mem, λ ne. k)
        from (absent ls rs is e lt gt mem ins dis sorted) =
            (0, (missing_node ls rs is lt gt).0, sym mem, λ ne. absurd (ne refl))

    -- The keys that a new node leaves: it has the key in hand, and the others keep theirs.
    abbrev pub Extends : Option (ℕ × RbNode) → (ℕ → K) → Type 0
    Extends none key' = Unit
    Extends (some (nd, n)) key' = (key' nd ≡ v) × All (λ q. key' q ≡ key q) xs

    -- rblist__add_node replies as the set does, and what it leaves is the set after that.
    pub add_refines :
        (new_node : Option (ℕ × RbNode)) (key' : ℕ → K)
        → IsNew new_node t
        → Extends new_node key'
        → (e : Errno) × (l' : RbList) × (t' : Tree) × (xs' : List ℕ) × (vs' : List K) × (add_node
              node_cmp fuel new_node l
            ≡ some (e, l'))
          × (spec_add cmp v new_node vs ≡ (e, vs'))
          × IsKeys cmp (key_after e key key') l' t' xs' vs'
          × (l'.nr_entries ≡ counted e l.nr_entries)
    add_refines none key' new ext = from look_up
      where
        from :
            Lookup
            → (e : Errno) × (l' : RbList) × (t' : Tree) × (xs' : List ℕ) × (vs' : List K)
              × (add_node node_cmp fuel none l ≡ some (e, l'))
              × (spec_add cmp v none vs ≡ (e, vs'))
              × IsKeys cmp (key_after e key key') l' t' xs' vs'
              × (l'.nr_entries ≡ counted e l.nr_entries)
        from (stands ls m rs is f a k mem dis sorted) =
            (eexist, l, t, xs, vs, a none, rw mem refl, set, refl)
        from (absent ls rs is e lt gt mem ins dis sorted) =
            (enomem, l, t, xs, vs, (missing_node ls rs is lt gt).1, rw mem refl, set, refl)
    add_refines (some (nd, n)) key' new ext = from look_up
      where
        from :
            Lookup
            → (e : Errno) × (l' : RbList) × (t' : Tree) × (xs' : List ℕ) × (vs' : List K)
              × (add_node node_cmp fuel (some (nd, n)) l ≡ some (e, l'))
              × (spec_add cmp v (some (nd, n)) vs ≡ (e, vs'))
              × IsKeys cmp (key_after e key key') l' t' xs' vs'
              × (l'.nr_entries ≡ counted e l.nr_entries)
        from (stands ls m rs is f a k mem dis sorted) =
            (eexist, l, t, xs, vs, a (some (nd, n)), rw mem refl, set, refl)
        from (absent ls rs is e lt gt mem ins dis sorted) =
            let (l', t', run, is', count) =
              add_node-success node_cmp fuel l t h ls rs is lt gt nd n new.0 new.1 in
            let same = All-append _ ls rs (subst (All (λ q. key' q ≡ key q)) e ext.1) in
            let keys : map key' (ls ++ (nd ∷ rs)) ≡ map key ls ++ (v ∷ map key rs) =
              map-append key' ls (nd ∷ rs)
              ∙ ap₂ (λ a b. a ++ b) (map_same key' ls same.0)
                  (ap₂ (λ a b. a ∷ b) ext.0 (map_same key' rs same.1)) in
            (
              success,
              l',
              t',
              ls ++ (nd ∷ rs),
              insert cmp v vs,
              run,
              rw mem refl,
              record {
                list = is';
                keys = keys ∙ sym ins;
                sorted = subst (Sorted cmp) (sym ins) sorted;
              },
              count,
            )

    -- Finding a node and removing it, where there is one, takes the key out of the set.
    pub remove_refines :
        (node_delete : ℕ → State → State)
        → IsDelete node_delete
        → (q : ℕ) → find node_cmp fuel l ≡ some q
        → q ≢ 0
        → (l' : RbList) × (t' : Tree) × (xs' : List ℕ) × (remove_node node_delete fuel q l
            ≡ some l')
          × IsKeys cmp key l' t' xs' (discard cmp v vs)
          × (l'.nr_entries ≡ l.nr_entries)
    remove_refines node_delete del q run ne = from look_up
      where
        from :
            Lookup
            → (l' : RbList) × (t' : Tree) × (xs' : List ℕ) × (remove_node node_delete fuel q l
                ≡ some l')
              × IsKeys cmp key l' t' xs' (discard cmp v vs)
              × (l'.nr_entries ≡ l.nr_entries)
        from (stands ls m rs is f a k mem dis sorted) =
            let e : m ≡ q = some_inj (sym f ∙ run) in
            let (l', t', gone, is', count) =
              remove_node_lem fuel l t ls m rs (omega arith) is node_delete del in
            (
              l',
              t',
              ls ++ rs,
              ap (λ p. remove_node node_delete fuel p l) (sym e) ∙ gone,
              record { list = is'; keys = sym dis; sorted = subst (Sorted cmp) (sym dis) sorted },
              count,
            )
        from (absent ls rs is e lt gt mem ins dis sorted) =
            absurd (ne (some_inj (sym run ∙ (missing_node ls rs is lt gt).0)))
