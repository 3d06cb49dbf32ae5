-- ===== src/Dlist/Tests.antt =====
-- Two lists on a heap, and what the operations of dlist.h do to them.
use struct.Base.{
  ℕ, ◌+◌, ◌≤◌, ◌≡◌, refl, arith, true, false, some, [], ◌∷◌, ◌==◌, ltb, if◌then◌else◌, occurrences,
  one,
}
use struct.Dlist.{
  Heap, add, add_tail, remove, replace, move, move_tail, join, join_tail, cut_position, empty,
  empty_careful, is_singular, for_each, for_each_prev, for_each_safe,
}
use struct.Dlist.Seg.{IsDlist, Only}
use struct.Dlist.Add.{add-add_tail}
use struct.Dlist.Remove.{remove_lem, replace_lem}
use struct.Dlist.Move.{Moved, move-move_tail}
use struct.Dlist.Join.{join_lem}
use struct.Dlist.Cut.{cut_position_lem}
use struct.Dlist.Walk.{tests_lem, for_each_lem}
use struct.Dlist.Drain.{Drained, for_each_safe_lem}

abbrev next_of : ℕ → ℕ
next_of x =
    if x == 1
    then 10
    else if x == 10
    then 20
    else if x == 20
    then 30
    else if x == 30
    then 1
    else if x == 2
    then 40
    else if x == 40
    then 2
    else x

abbrev prev_of : ℕ → ℕ
prev_of x =
    if x == 1
    then 30
    else if x == 10
    then 1
    else if x == 20
    then 10
    else if x == 30
    then 20
    else if x == 2
    then 40
    else if x == 40
    then 2
    else x

-- 10, 20 and 30 on the list 1, 40 on the list 2, and the other nodes below 60 on their own.
abbrev heap : Heap
heap = record { live = λ x. ltb x 60; next = next_of; prev = prev_of }

three : IsDlist heap 1 (10 ∷ 20 ∷ 30 ∷ [])
unfolding occurrences
three = record {
  links = ((refl, refl), ((refl, refl), ((refl, refl), ((refl, refl), tt))));
  uniq = λ z. ground arith;
  alive = λ z i. ground (arith, i);
}

single : IsDlist heap 2 (40 ∷ [])
unfolding occurrences
single = record {
  links = ((refl, refl), ((refl, refl), tt));
  uniq = λ z. ground arith;
  alive = λ z i. ground (arith, i);
}

apart :
    (z : ℕ)
    → (one z 1 + occurrences z (10 ∷ 20 ∷ 30 ∷ [])) + (one z 2 + occurrences z (40 ∷ [])) ≤ 1
unfolding occurrences
apart z = ground arith

add-add_tail_example :
    ((h' : Heap) × (add 1 50 heap ≡ some h')
      × IsDlist h' 1 (50 ∷ 10 ∷ 20 ∷ 30 ∷ [])
      × Only (50 ∷ 1 ∷ 10 ∷ 20 ∷ 30 ∷ []) heap h')
    × ((h' : Heap) × (add_tail 1 50 heap ≡ some h')
        × IsDlist h' 1 (10 ∷ 20 ∷ 30 ∷ 50 ∷ [])
        × Only (50 ∷ 1 ∷ 10 ∷ 20 ∷ 30 ∷ []) heap h')
unfolding occurrences
add-add_tail_example = add-add_tail heap 1 (10 ∷ 20 ∷ 30 ∷ []) three 50 refl refl

remove_lem_example :
    (h' : Heap) × (remove 20 heap ≡ some h')
    × IsDlist h' 1 (10 ∷ 30 ∷ [])
    × IsDlist h' 20 []
    × Only (1 ∷ 10 ∷ 20 ∷ 30 ∷ []) heap h'
remove_lem_example = remove_lem heap 1 (10 ∷ []) 20 (30 ∷ []) three

replace_lem_example :
    (h' : Heap) × (replace 20 50 heap ≡ some h')
    × IsDlist h' 1 (10 ∷ 50 ∷ 30 ∷ [])
    × IsDlist h' 20 []
    × Only (50 ∷ 1 ∷ 10 ∷ 20 ∷ 30 ∷ []) heap h'
unfolding occurrences
replace_lem_example = replace_lem heap 1 (10 ∷ []) 20 (30 ∷ []) three 50 refl refl

move-move_tail_example :
    ((h' : Heap) × (move 2 20 heap ≡ some h')
      × Moved heap 1 (10 ∷ []) 20 (30 ∷ []) three 2 (40 ∷ []) single apart (20 ∷ 40 ∷ []) h')
    × ((h' : Heap) × (move_tail 2 20 heap ≡ some h')
        × Moved heap 1 (10 ∷ []) 20 (30 ∷ []) three 2 (40 ∷ []) single apart (40 ∷ 20 ∷ []) h')
move-move_tail_example = move-move_tail heap 1 (10 ∷ []) 20 (30 ∷ []) three 2 (40 ∷ []) single apart

join_lem_example :
    ((h' : Heap) × (join 2 1 heap ≡ some h')
      × IsDlist h' 1 (40 ∷ 10 ∷ 20 ∷ 30 ∷ [])
      × Only (1 ∷ 40 ∷ 10 ∷ 20 ∷ 30 ∷ []) heap h')
    × ((h' : Heap) × (join_tail 2 1 heap ≡ some h')
        × IsDlist h' 1 (10 ∷ 20 ∷ 30 ∷ 40 ∷ [])
        × Only (1 ∷ 40 ∷ 10 ∷ 20 ∷ 30 ∷ []) heap h')
join_lem_example = join_lem heap 1 (10 ∷ 20 ∷ 30 ∷ []) three 2 (40 ∷ []) single apart

cut_position_lem_example :
    ((h' : Heap) × (cut_position 1 20 50 heap ≡ some h')
      × IsDlist h' 50 (10 ∷ 20 ∷ [])
      × IsDlist h' 1 (30 ∷ [])
      × Only (50 ∷ 1 ∷ 10 ∷ 20 ∷ 30 ∷ []) heap h')
    × ((h' : Heap) × (cut_position 1 1 50 heap ≡ some h')
        × IsDlist h' 50 []
        × IsDlist h' 1 (10 ∷ 20 ∷ 30 ∷ [])
        × Only (50 ∷ []) heap h')
unfolding occurrences
cut_position_lem_example = cut_position_lem heap 1 (10 ∷ []) 20 (30 ∷ []) three 50 refl refl

one_entry :
    (empty 2 heap ≡ some false)
    × (empty_careful 2 heap ≡ some false)
    × (is_singular 2 heap ≡ some true)
one_entry = tests_lem heap 2 (40 ∷ []) single

both_ways :
    (for_each 4 1 heap ≡ some (10 ∷ 20 ∷ 30 ∷ []))
    × (for_each_prev 4 1 heap ≡ some (30 ∷ 20 ∷ 10 ∷ []))
both_ways = for_each_lem heap 1 4 (10 ∷ 20 ∷ 30 ∷ []) (omega arith) three

for_each_safe_lem_example :
    (h' : Heap) × (for_each_safe remove 4 1 heap ≡ some h') × Drained 1 (10 ∷ 20 ∷ 30 ∷ []) heap h'
for_each_safe_lem_example = for_each_safe_lem 1 4 (10 ∷ 20 ∷ 30 ∷ []) heap (omega arith) three
