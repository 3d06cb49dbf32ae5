-- ===== src/HashTable/Tests.antt =====
-- A table with two buckets and three entries, and the theorems on it.
use struct.Base.{
  ℕ, zero, suc, ◌<◌, ◌≡◌, refl, arith, some, List, [], ◌∷◌, ◌==◌, if◌then◌else◌, ltb, occurrences,
}
use struct.Dlist.{Heap}
use struct.Dlist.Seg.{IsDlist}
use struct.HashTable.{HashTable, success, burket_at, insert_entry, remove_entry, find_entry}
use struct.HashTable.Enum.{Routine, enum_entry, clear, get_count}
use struct.HashTable.Children.{add_child, remove_child}
use struct.HashTable.Frame.{IsDlist-nil}
use struct.HashTable.Rep.{burket, IsTable, contents}
use struct.HashTable.Lookup.{find_entry-lookup}
use struct.HashTable.Insert.{Fresh}
use struct.HashTable.Refine.{Refines, removal, insertion, insert_entry_lem, remove_entry_lem}
use struct.HashTable.Remove.{Freed}
use struct.HashTable.Loop.{walk, enum_entry_lem}
use struct.HashTable.Clear.{clear_lem}
use struct.HashTable.Family.{Grown, add_child_lem}
use struct.HashTable.Leave.{first_child, Left, remove_child_lem}

abbrev links : (ℕ → ℕ) → (ℕ → ℕ) → Heap
links next prev = record { live = λ z. ltb z 1300; next = next; prev = prev }

-- The entries 1000 and 1100 are in the second bucket, 1200 is in the first; 1100 and 1200 are
-- children of 1000.
abbrev table : HashTable
table = record {
  number_of_burkets = 2;
  number_of_node = 3;
  hash_table = 200;
  fast_list = 100;
  entries =
      links
        (λ z.
          if z == 200
          then 1200
          else if z == 216
          then 1000
          else if z == 1000
          then 1100
          else if z == 1100
          then 216
          else 200)
        (λ z.
          if z == 200
          then 1200
          else if z == 216
          then 1100
          else if z == 1000
          then 216
          else if z == 1100
          then 1000
          else 200);
  fast =
      links
        (λ z.
          if z == 100 then 1016 else if z == 1016 then 1116 else if z == 1116 then 1216 else 100)
        (λ z.
          if z == 100 then 1216 else if z == 1016 then 100 else if z == 1116 then 1016 else 1116);
  brothers =
      links (λ z. if z == 1132 then 1232 else if z == 1232 then 1132 else z)
        (λ z. if z == 1132 then 1232 else if z == 1232 then 1132 else z);
  id_node = λ z. if z == 1000 then 5 else if z == 1100 then 7 else 8;
  data_size = λ z. if z == 1000 then 2 else 0;
  bytes = λ z. if z == 1000 then 10 ∷ 11 ∷ [] else [];
  child = λ z. if z == 1000 then 1100 else 0;
  parent = λ z. if z == 1100 then 1000 else if z == 1200 then 1000 else 0;
}

abbrev nodes : List ℕ
nodes = 1000 ∷ 1100 ∷ 1200 ∷ []

in_order : (i : ℕ) → i < 2 → IsDlist table.entries (burket_at table i) (burket table i nodes)
unfolding occurrences
in_order zero lt = record {
  links = ((refl, refl), ((refl, refl), tt));
  uniq = λ z. ground arith;
  alive = λ z i. ground (arith, i);
}
in_order (suc zero) lt = record {
  links = ((refl, refl), ((refl, refl), ((refl, refl), tt)));
  uniq = λ z. ground arith;
  alive = λ z i. ground (arith, i);
}
in_order (suc (suc i)) lt = absurd (omega (arith, lt))

table_IsTable : IsTable table nodes
unfolding occurrences
table_IsTable = record {
  some_burkets = omega arith;
  burkets = in_order;
  fast_links = record {
    links = ((refl, refl), ((refl, refl), ((refl, refl), ((refl, refl), tt))));
    uniq = λ z. ground arith;
    alive = λ z i. ground (arith, i);
  };
  no_head = λ i lt. ground (arith, lt);
  uniq = λ z. ground arith;
  not_null = λ z i. ground (arith, i);
  brother_live = λ z i. ground (arith, i);
  ids = λ x y i j eq. ground (arith, i, j, eq);
  number = refl;
}

fresh : Fresh table 1300
fresh = record { not_nil = λ eq. omega (arith, eq); no_entry = refl; no_fast = refl }

insert_entry_lem_example :
    Refines table
      (insert_entry 4 (some 1300) 9 (1 ∷ []) (some table))
      (insertion (some 1300) 9 (1 ∷ []) (contents table nodes))
insert_entry_lem_example =
    insert_entry_lem table nodes table_IsTable 4 (omega arith) 9 (some 1300) (1 ∷ []) fresh

remove_entry_lem_example :
    Refines table (remove_entry 4 7 (some table)) (removal 7 (contents table nodes))
remove_entry_lem_example = remove_entry_lem table nodes table_IsTable 4 (omega arith) 7

find_entry-lookup_example : find_entry 4 5 (some table) ≡ some (some (10 ∷ 11 ∷ [], 2))
find_entry-lookup_example = find_entry-lookup table nodes table_IsTable 4 (omega arith) 5

-- A routine that deletes the entries without bytes, writes zeros to the others and counts its calls.
abbrev zeros : List ℕ → List ℕ
zeros [] = []
zeros (b ∷ bs) = 0 ∷ zeros bs

abbrev sweep : Routine ℕ
sweep id bytes size calls = (if size == 0 then 3 else 1, zeros bytes, suc calls)

enum_entry_lem_example :
    (t' : HashTable) × (es' : List ℕ) × (last : ℕ) × (calls : ℕ) × (enum_entry 4
        (some sweep)
        0
        (some table)
      ≡ some (last, calls, some t'))
    × IsTable t' es'
    × (walk sweep (contents table nodes) 1 0 ≡ (contents t' es', last, calls))
enum_entry_lem_example = enum_entry_lem sweep 4 nodes table 0 table_IsTable (omega arith)

first_in : 0 < occurrences 1000 nodes
unfolding occurrences
first_in = omega arith

second_in : 0 < occurrences 1100 nodes
unfolding occurrences
second_in = omega arith

third_in : 0 < occurrences 1200 nodes
unfolding occurrences
third_in = omega arith

add_child_lem_example :
    (t' : HashTable) × (add_child 4 8 5 (some table) ≡ some (success, some t'))
    × Grown table nodes table_IsTable 4 (omega arith) 1200 third_in 1000 first_in [] t'
unfolding occurrences
add_child_lem_example =
    add_child_lem table nodes table_IsTable 4 (omega arith) 1200 third_in 1000 first_in [] refl refl
      (IsDlist-nil refl refl refl)

ring : IsDlist table.brothers 1132 (1232 ∷ [])
unfolding occurrences
ring = record {
  links = ((refl, refl), ((refl, refl), tt));
  uniq = λ z. ground arith;
  alive = λ z i. ground (arith, i);
}

remove_child_lem_example :
    (t' : HashTable) × (remove_child 4 5 7 (some table) ≡ some (success, some t'))
    × Left table nodes table_IsTable 1000 first_in 1100 second_in 1232 (1200 ∷ []) t'
remove_child_lem_example =
    remove_child_lem table nodes table_IsTable 1000 first_in 1100 second_in 4 (omega arith)
      (1100 ∷ 1200 ∷ []) 1232 (1200 ∷ []) (first_child 1200 []) (refl, λ e. omega (arith, e), ring)

clear_lem_example :
    (t' : HashTable) × (clear 4 (some table) ≡ some (success, some t'))
    × IsTable t' []
    × (get_count (some t') ≡ 0)
    × Freed table t' nodes
clear_lem_example = clear_lem 4 nodes table table_IsTable (omega arith)
