-- ===== src/HashTable/Enum.antt =====
-- The other calls of hashtable.cpp on a whole table: the walk with a routine of the caller, the
-- removal of all entries, the making and the end of a table.
use struct.Base.{
  ℕ, zero, suc, ◌+◌, ◌*◌, ◌/◌, ◌%◌, ◌^◌, Bool, true, false, Option, none, some, List, ◌==◌,
  if◌then◌else◌, ltb, ◌&&◌,
}
use struct.Dlist.{Heap, write}
use struct.HashTable.{
  Errno, success, einval, enomem, HashTable, Outcome, link_size, entry_of, write_at, with_live,
  discard,
}

-- `EnumRoutine(idNode, Data, DataSize, Context)`: what it returns, and what it leaves of the bytes of
-- the entry, which it may write, and of the context. It has no pointer to the table, and the note on
-- its type in hashtable.h forbids it to free the buffer.
abbrev pub Routine : Type 0 → Type 0
Routine C = ℕ → List ℕ → ℕ → C → ℕ × List ℕ × C

-- The bits `ENUM_DELETE` and `ENUM_CONTINUE` of what the routine returned.
abbrev pub deletes : ℕ → Bool
deletes action = action / 2 % 2 == 1

abbrev pub continues : ℕ → Bool
continues action = action % 2 == 1

-- The body of the loop of `EnumHashEntry`, without the step to the next entry: the action, the context
-- and the table, with what the routine has written.
unfoldable pub visit :
    {C : Type 0} → Routine C → (pos : ℕ) → C → HashTable → Option (ℕ × C × HashTable)
visit routine pos context t =
    let e = entry_of pos in
    if t.entries.live e && t.fast.live pos
    then (let (action, bytes, context') =
          routine (t.id_node e) (t.bytes e) (t.data_size e) context in
        let written : HashTable = record t { bytes = write_at t.bytes e bytes } in
        elim (if deletes action then discard e written else some written) [
          | none ↦ none
          | some t' ↦ some (action, context', t')
        ])
    else none

-- The loop of `EnumHashEntry` from `pos` on, with `NextAction` so far; it returns the last bit of
-- the last action.
unfoldable pub enum_from :
    {C : Type 0}
    → Routine C
    → ℕ
    → (head pos action : ℕ) → C
    → HashTable
    → Option (ℕ × C × HashTable)
enum_from routine zero head pos action context t = none
enum_from routine (suc fuel) head pos action context t =
    if pos == head then some (action % 2, context, t) else (elim (visit routine pos context t) [
      | none ↦ none
      | some (action', context', t') ↦
          let rest = enum_from routine fuel head (t.fast.next pos) action' context' t' in
          if continues action' then rest else some (action' % 2, context', t')
    ])

-- `EnumHashEntry`; a NULL routine is `none`. `EINVAL` is 22.
unfoldable pub enum_entry :
    {C : Type 0} → ℕ → Option (Routine C) → C → Option HashTable → Option (ℕ × C × Option HashTable)
enum_entry fuel routine context none = some (22, context, none)
enum_entry fuel none context (some t) = some (22, context, some t)
enum_entry fuel (some routine) context (some t) =
    if t.fast.live t.fast_list
    then (elim (enum_from routine fuel t.fast_list (t.fast.next t.fast_list) 1 context t) [
      | none ↦ none
      | some (action, context', t') ↦ some (action, context', some t')
    ])
    else none

-- The loop of `ClearHashTable`
unfoldable pub clear_from : ℕ → (head pos : ℕ) → HashTable → Option HashTable
clear_from zero head pos t = none
clear_from (suc fuel) head pos t =
    if pos == head
    then some t
    else (if t.fast.live pos
        then (elim (discard (entry_of pos) t) [
          | none ↦ none
          | some t' ↦ clear_from fuel head (t.fast.next pos) t'
        ])
        else none)

unfoldable pub clear : ℕ → Option HashTable → Outcome
clear fuel none = some (einval, none)
clear fuel (some t) =
    if t.fast.live t.fast_list
    then (elim (clear_from fuel t.fast_list (t.fast.next t.fast_list) t) [
      | none ↦ none
      | some t' ↦ some (success, some t')
    ])
    else none

-- `GetHashEntryCount`
unfoldable pub get_count : Option HashTable → ℕ
get_count none = 22
get_count (some t) = t.number_of_node

-- The loop of `CreateHashTable` over the buckets, from `i` on, each head a list without entries.
unfoldable pub init_burkets : (n i hash_table : ℕ) → Heap → Heap
init_burkets zero i hash_table h = h
init_burkets (suc n) i hash_table h =
    let p = hash_table + link_size * i in
    init_burkets n (suc i) hash_table
      (record h { live = write_at h.live p true; next = write h.next p p; prev = write h.prev p p })

-- The table that `CreateHashTable` makes of the two blocks that `malloc` returned, in the memory of
-- the entries that there are.
unfoldable pub new_table : (length table hash_table : ℕ) → HashTable → HashTable
new_table length table hash_table t = record t {
  number_of_burkets = length;
  number_of_node = 0;
  hash_table = hash_table;
  fast_list = table;
  entries = init_burkets length 0 hash_table t.entries;
  fast = record t.fast {
    live = write_at t.fast.live table true;
    next = write t.fast.next table table;
    prev = write t.fast.prev table table;
  };
}

-- `CreateHashTable`: the second block is not tested before it is written to. A length from 2^31 on
-- is a negative `NumberOfBurkets`, whose size no `malloc` serves.
unfoldable pub create :
    (pointer : Bool) → (malloc_table malloc_burkets : Option ℕ) → (length : ℕ) → HashTable → Outcome
create false malloc_table malloc_burkets length t = some (einval, none)
create true none malloc_burkets length t = some (enomem, none)
create true (some table) none length t = none
create true (some table) (some hash_table) length t =
    if ltb length (2 ^ 31) then some (success, some (new_table length table hash_table t)) else none

-- The heads of the buckets go, from `i` on.
unfoldable pub free_burkets : (n i hash_table : ℕ) → Heap → Heap
free_burkets zero i hash_table h = h
free_burkets (suc n) i hash_table h =
    free_burkets n (suc i) hash_table (with_live false (hash_table + link_size * i) h)

-- `CloseHashTable`: what is left of the memory.
unfoldable pub close : ℕ → Option HashTable → Option (Option HashTable)
close fuel none = some none
close fuel (some t) = elim (clear fuel (some t)) [
  | none ↦ none
  | some (errno, none) ↦ none
  | some (errno, some t') ↦ some (
      some (record t' {
        entries =
            if t'.hash_table == 0
            then t'.entries
            else free_burkets t'.number_of_burkets 0 t'.hash_table t'.entries;
        fast = with_live false t'.fast_list t'.fast;
        hash_table = 0;
      }))
]

-- `SaveHashTable` and `LoadHashTable`, which only return an error.
unfoldable pub save : Option HashTable → Errno
save t = einval

unfoldable pub load : Option HashTable → Errno
load t = einval
