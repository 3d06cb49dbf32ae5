-- ===== src/Hlist/Ops.antt =====
-- The operations of hlist.h on chains.
use struct.Base.{
  ℕ, ◌+◌, ◌≡◌, ◌≢◌, ◌∙◌, refl, sym, ap, subst, arith, Bool-cases, inl, inr, true, false, some, List,
  [], ◌∷◌, ◌++◌, append_assoc, ◌==◌, if◌then◌else◌, one, occurrences, occurrences-append,
}
use struct.Dlist.{Heap, Cmd, ◌>>◌, write, with_next, with_prev}
use struct.Dlist.Seg.{last, last-append, Seg-split, Only, Only-trans}
use struct.Hlist.{init_node, unhashed, set_pprev, unlink, del_init, add_head, add_before, add_after}
use struct.Hlist.Chain.{
  IsHlist, behind, last-in, next_of_cut, live_cut, count, Inserted, one_node, behind_count,
  IsHlist-insert, IsHlist-bridge, IsHlist-frame,
}

abbrev pub with_pprev : (next pprev : ℕ) → Heap → Heap
with_pprev next pprev h = record h {
  prev = λ z. if next == 0 then h.prev z else write h.prev next pprev z;
}

pub set_pprev_run :
    (next pprev : ℕ) (h : Heap)
    → (next ≢ 0 → h.live next ≡ true)
    → set_pprev next pprev h ≡ some (with_pprev next pprev h)
unfolding set_pprev
set_pprev_run next pprev h l = elim (Bool-cases (next == 0)) [
  | inl e ↦ rw (e, set_pprev) refl
  | inr e ↦ let ln = l (λ z. ground (arith, z, e)) in rw (e, set_pprev, ln) refl
]

pub live_behind :
    (h : Heap) (list : ℕ) (us vs : List ℕ)
    → IsHlist h list (us ++ vs)
    → behind vs ≢ 0
    → h.live (behind vs) ≡ true
unfolding occurrences
live_behind h list us [] is ne = absurd (ne refl)
live_behind h list us (v ∷ vs) is ne = is.alive v (ground (arith, occurrences-append v us (v ∷ vs)))

module _ (h : Heap) (list : ℕ) (us : List ℕ) (e : ℕ) (vs : List ℕ)
    (is : IsHlist h list (us ++ (e ∷ vs))) where
  pub here :
      (h.prev e ≡ last list us)
      × (h.next e ≡ behind vs)
      × (h.live e ≡ true)
      × (e ≢ 0)
      × (behind vs ≢ 0 → h.live (behind vs) ≡ true)
  unfolding occurrences
  here =
      let (s1, (l, s2)) = Seg-split h list us (e ∷ vs) is.links in
      let whole : IsHlist h list ((us ++ (e ∷ [])) ++ vs) =
        subst (IsHlist h list) (sym (append_assoc us (e ∷ []) vs)) is in
      (
        l.1,
        ap h.next (sym (last-append list us e [])) ∙ next_of_cut h list (us ++ (e ∷ [])) vs whole,
        is.alive e (ground (arith, occurrences-append e us (e ∷ vs))),
        λ z. ground (arith, z, is.no_null, occurrences-append 0 us (e ∷ vs)),
        live_behind h list (us ++ (e ∷ [])) vs whole,
      )

  -- `__hlist_del` takes a node out of its chain.
  pub unlink_lem :
      (h' : Heap) × (unlink e h ≡ some h')
      × IsHlist h' list (us ++ vs)
      × Only (list ∷ (us ++ vs)) h h'
  unfolding unlink
  unlink_lem =
      let p = last list us in
      let n = behind vs in
      let (prev_e, next_e, le, ne, live_n) = here in
      let lp = live_cut h list us (e ∷ vs) is in
      let h' : Heap = with_pprev n p (with_next p n h) in
      let run = set_pprev_run n p (with_next p n h) live_n in
      let (is', o) = IsHlist-bridge h h' list us e vs is (record {
        next_p = ground arith;
        prev_n = λ z. ground (arith, z);
        other_next = λ z i. ground (arith, i);
        other_prev = λ z i. ground (arith, i);
        same_live = λ z. refl;
      }) in
      (h', rw (le, unlink, next_e, prev_e, ◌>>◌, lp, next_e, prev_e, run) refl, is', o)

  -- hlist_del_init takes a node out of its chain and leaves it unhashed; only links of the node and
  -- of the chain change.
  pub del_init_lem :
      (h' : Heap) × (del_init e h ≡ some h')
      × IsHlist h' list (us ++ vs)
      × (unhashed e h' ≡ some true)
      × Only (e ∷ list ∷ (us ++ vs)) h h'
  unfolding del_init unhashed init_node occurrences
  del_init_lem =
      let (prev_e, next_e, le, ne, live_n) = here in
      let c = count h list us (e ∷ vs) is in
      let hashed : (last list us == 0) ≡ false = ground (arith, last-in list us, c 0, is.no_null) in
      let (h1, run, is1, o1) = unlink_lem in
      let le1 : h1.live e ≡ true = o1.same_live e ∙ le in
      let h2 : Heap = with_prev e 0 (with_next e 0 h1) in
      let o2 : Only (e ∷ []) h1 h2 = record {
        same_next = λ z i. ground (arith, i);
        same_prev = λ z i. ground (arith, i);
        same_live = λ z. refl;
      } in
      let cleared : h2.prev e ≡ 0 = ground arith in
      (
        h2,
        rw (le, del_init, unhashed, prev_e, hashed, ◌>>◌, run, le1, le1) refl,
        IsHlist-frame h1 h2 (e ∷ []) list (us ++ vs) o2
            (λ z i. ground (arith, i, c z, occurrences-append z us vs)) is1,
        rw (le1, unhashed, cleared) refl,
        Only-trans (list ∷ (us ++ vs)) (e ∷ []) (e ∷ list ∷ (us ++ vs))
            (λ z i. (omega (arith, i), omega (arith, i))) o1 o2,
      )

  -- `hlist_add_before`
  add_before_lem :
      (new : ℕ)
      → new ≢ 0
      → h.live new ≡ true
      → one new list + occurrences new (us ++ (e ∷ vs)) ≡ 0
      → (h' : Heap) × (add_before new e h ≡ some h')
        × IsHlist h' list (us ++ (new ∷ e ∷ vs))
        × Only (new ∷ list ∷ (us ++ (e ∷ vs))) h h'
  unfolding add_before occurrences
  add_before_lem new nn lnew fresh =
      let p = last list us in
      let (prev_e, next_e, le, ne, live_n) = here in
      let c = count h list us (e ∷ vs) is in
      let lp = live_cut h list us (e ∷ vs) is in
      let apart : (new == e) ≡ false = ground (arith, fresh, c new) in
      let self : (new == new) ≡ true = ground arith in
      let h' : Heap = with_next p new (with_prev e new (with_next new e (with_prev new p h))) in
      let (is', o) =
        IsHlist-insert h h' list us new (e ∷ vs) is
          (record {
            next_p = ground arith;
            next_e = ground (arith, last-in list us, c p, fresh, c new);
            prev_e = ground (arith, fresh, c new);
            prev_n = λ z. ground (arith, fresh, c new);
            other_next = λ z i. ground (arith, i);
            other_prev = λ z i. ground (arith, i, ne);
            same_live = λ z. refl;
          })
          nn lnew fresh in
      (h', rw (le, add_before, ◌>>◌, prev_e, lnew, lnew, le, lnew, apart, self, lp) refl, is', o)

  -- `hlist_add_after`
  add_after_lem :
      (new : ℕ)
      → new ≢ 0
      → h.live new ≡ true
      → one new list + occurrences new (us ++ (e ∷ vs)) ≡ 0
      → (h' : Heap) × (add_after e new h ≡ some h')
        × IsHlist h' list (us ++ (e ∷ new ∷ vs))
        × Only (new ∷ list ∷ (us ++ (e ∷ vs))) h h'
  unfolding add_after occurrences
  add_after_lem new nn lnew fresh =
      let n = behind vs in
      let (prev_e, next_e, le, ne, live_n) = here in
      let c = count h list us (e ∷ vs) is in
      let end : last list (us ++ (e ∷ [])) ≡ e = last-append list us e [] in
      let same : (us ++ (e ∷ [])) ++ vs ≡ us ++ (e ∷ vs) = append_assoc us (e ∷ []) vs in
      let apart : (new == e) ≡ false = ground (arith, fresh, c new) in
      let self : (new == new) ≡ true = ground arith in
      let h1 : Heap = with_prev new e (with_next e new (with_next new n h)) in
      let h' : Heap = with_pprev n new h1 in
      let run = set_pprev_run n new h1 live_n in
      let behind_new : one_node new n ≡ 0 =
        omega (arith, fresh, occurrences-append new us (e ∷ vs), behind_count new vs) in
      let (is', o) =
        IsHlist-insert h h' list (us ++ (e ∷ [])) new vs (subst (IsHlist h list) (sym same) is)
          (subst (λ p. Inserted h h' p new n) (sym end)
            (record {
              next_p = ground arith;
              next_e = ground (arith, apart);
              prev_e = ground (arith, behind_new, nn);
              prev_n = λ z. ground (arith, z);
              other_next = λ z i. ground (arith, i);
              other_prev = λ z i. ground (arith, i);
              same_live = λ z. refl;
            }))
          nn lnew (ap (λ w. one new list + occurrences new w) same ∙ fresh) in
      (
        h',
        rw (le, add_after, ◌>>◌, next_e, lnew, le, lnew, lnew, apart, self, run) refl,
        subst (IsHlist h' list) (append_assoc us (e ∷ []) (new ∷ vs)) is',
        subst (λ w. Only (new ∷ list ∷ w) h h') same o,
      )

-- `hlist_add_head`
add_head_lem :
    (h : Heap) (list : ℕ) (xs : List ℕ) (new : ℕ)
    → IsHlist h list xs
    → new ≢ 0
    → h.live new ≡ true
    → one new list + occurrences new xs ≡ 0
    → (h' : Heap) × (add_head new list h ≡ some h')
      × IsHlist h' list (new ∷ xs)
      × Only (new ∷ list ∷ xs) h h'
unfolding add_head occurrences
add_head_lem h list xs new is nn lnew fresh =
    let n = behind xs in
    let l = live_cut h list [] xs is in
    let first = next_of_cut h list [] xs is in
    let h1 : Heap = with_next new n h in
    let run = set_pprev_run n new h1 (live_behind h list [] xs is) in
    let h' : Heap = with_prev new list (with_next list new (with_pprev n new h1)) in
    let behind_new : one_node new n ≡ 0 = omega (arith, fresh, behind_count new xs) in
    let (is', o) =
      IsHlist-insert h h' list [] new xs is
        (record {
          next_p = ground arith;
          next_e = ground (arith, fresh);
          prev_e = ground arith;
          prev_n = λ z. ground (arith, z, behind_new);
          other_next = λ z i. ground (arith, i);
          other_prev = λ z i. ground (arith, i);
          same_live = λ z. refl;
        })
        nn lnew fresh in
    (h', rw (l, add_head, ◌>>◌, first, lnew, first, run, l, lnew) refl, is', o)

-- A chain with a place for a node in it: in front, also of an empty chain, or before or behind one of
-- the nodes.
pub data Place : Type 0 where
  front : List ℕ → Place
  before : (us : List ℕ) (e : ℕ) (vs : List ℕ) → Place
  behind_node : (us : List ℕ) (e : ℕ) (vs : List ℕ) → Place

abbrev pub chain_of : Place → List ℕ
chain_of (front xs) = xs
chain_of (before us e vs) = us ++ (e ∷ vs)
chain_of (behind_node us e vs) = us ++ (e ∷ vs)

abbrev pub filled : ℕ → Place → List ℕ
filled new (front xs) = new ∷ xs
filled new (before us e vs) = us ++ (new ∷ e ∷ vs)
filled new (behind_node us e vs) = us ++ (e ∷ new ∷ vs)

-- The call that puts a node there.
abbrev pub put_at : (new list : ℕ) → Place → Cmd
put_at new list (front xs) = add_head new list
put_at new list (before us e vs) = add_before new e
put_at new list (behind_node us e vs) = add_after e new

-- On a chain, empty or not, hlist_add_head puts a node that is not in it first, hlist_add_before puts
-- it before a node of the chain, and hlist_add_after behind that; only links of the node and of the
-- chain change.
pub adds_in_place :
    (h : Heap) (list : ℕ) (place : Place) (new : ℕ)
    → IsHlist h list (chain_of place)
    → new ≢ 0
    → h.live new ≡ true
    → one new list + occurrences new (chain_of place) ≡ 0
    → (h' : Heap) × (put_at new list place h ≡ some h')
      × IsHlist h' list (filled new place)
      × Only (new ∷ list ∷ chain_of place) h h'
adds_in_place h list (front xs) new is nn le fresh = add_head_lem h list xs new is nn le fresh
adds_in_place h list (before us e vs) new is nn le fresh =
    add_before_lem h list us e vs is new nn le fresh
adds_in_place h list (behind_node us e vs) new is nn le fresh =
    add_after_lem h list us e vs is new nn le fresh
