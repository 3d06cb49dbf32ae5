-- ===== src/Hlist/Tests.antt =====
-- A chain on a heap, and what the operations of hlist.h do to it.
use struct.Base.{
  ◌≡◌, refl, arith, true, false, some, [], ◌∷◌, ◌==◌, ltb, if◌then◌else◌, occurrences,
}
use struct.Dlist.{Heap}
use struct.Dlist.Seg.{Only}
use struct.Hlist.{unhashed, del_init, add_head, add_before, move_list, for_each, empty}
use struct.Hlist.Chain.{IsHlist}
use struct.Hlist.Ops.{del_init_lem, front, before, adds_in_place}
use struct.Hlist.Move.{move_list_lem}
use struct.Hlist.Walk.{chain_for_each}

-- 10, 20 and 30 in the chain at 1, and the other nodes below 60 unhashed.
abbrev heap : Heap
heap = record {
  live = λ x. ltb x 60;
  next = λ x. if x == 1 then 10 else if x == 10 then 20 else if x == 20 then 30 else 0;
  prev = λ x. if x == 10 then 1 else if x == 20 then 10 else if x == 30 then 20 else 0;
}

three : IsHlist heap 1 (10 ∷ 20 ∷ 30 ∷ [])
unfolding occurrences
three = record {
  links = ((refl, refl), ((refl, refl), ((refl, refl), tt)));
  ends = refl;
  uniq = λ z. ground arith;
  no_null = refl;
  alive = λ z i. ground (arith, i);
}

del_init_lem_example :
    (h' : Heap) × (del_init 20 heap ≡ some h')
    × IsHlist h' 1 (10 ∷ 30 ∷ [])
    × (unhashed 20 h' ≡ some true)
    × Only (20 ∷ 1 ∷ 10 ∷ 30 ∷ []) heap h'
del_init_lem_example = del_init_lem heap 1 (10 ∷ []) 20 (30 ∷ []) three

-- A chain without nodes at 40.
none_yet : IsHlist heap 40 []
unfolding occurrences
none_yet = record {
  links = tt;
  ends = refl;
  uniq = λ z. ground arith;
  no_null = refl;
  alive = λ z i. ground (arith, i);
}

adds_in_place_example :
    (h' : Heap) × (add_head 50 40 heap ≡ some h')
    × IsHlist h' 40 (50 ∷ [])
    × Only (50 ∷ 40 ∷ []) heap h'
unfolding occurrences
adds_in_place_example =
    adds_in_place heap 40 (front []) 50 none_yet (λ e. omega (arith, e)) refl refl

before_second :
    (h' : Heap) × (add_before 50 20 heap ≡ some h')
    × IsHlist h' 1 (10 ∷ 50 ∷ 20 ∷ 30 ∷ [])
    × Only (50 ∷ 1 ∷ 10 ∷ 20 ∷ 30 ∷ []) heap h'
unfolding occurrences
before_second =
    adds_in_place heap 1 (before (10 ∷ []) 20 (30 ∷ [])) 50 three (λ e. omega (arith, e)) refl refl

move_list_lem_example :
    (h' : Heap) × (move_list 1 50 heap ≡ some h')
    × IsHlist h' 50 (10 ∷ 20 ∷ 30 ∷ [])
    × IsHlist h' 1 []
    × Only (50 ∷ 1 ∷ 10 ∷ 20 ∷ 30 ∷ []) heap h'
unfolding occurrences
move_list_lem_example =
    move_list_lem heap 1 (10 ∷ 20 ∷ 30 ∷ []) 50 three (λ e. omega (arith, e)) refl refl

whole_chain : (for_each 4 1 heap ≡ some (10 ∷ 20 ∷ 30 ∷ [])) × (empty 1 heap ≡ some false)
whole_chain = chain_for_each heap 1 4 (10 ∷ 20 ∷ 30 ∷ []) (omega arith) three
