-- ===== src/HashTable.antt =====
-- The hash table of hashtable.cpp. A `listentry_t` is a node of the heap of dlist.h, `Flink` its
-- `next` and `Blink` its `prev`, by its address. An entry has three of them, at the offsets 0, 16
-- and 32, and they are held on three heaps, since no pointer leads from one kind to another. The
-- heads of the buckets are on the first, and the head of the list of all entries on the second. What
-- `malloc` returns is a parameter. The bytes that go into an entry are a list, and `DataSize` is its
-- length. The two `int32_t` of a table are held by their bits. `none` is a fault, and NULL is 0; a
-- table pointer that may be NULL is an option.
pub mod Enum
pub mod Children
pub mod Frame
pub mod Links
pub mod Rep
pub mod Lookup
pub mod Remove
pub mod Insert
pub mod Refine
pub mod Visit
pub mod Loop
pub mod Clear
pub mod Start
pub mod Ring
pub mod Family
pub mod Leave
mod Tests
use struct.Base.{
  ℕ, zero, suc, ◌+◌, ◌-◌, ◌*◌, ◌%◌, ◌^◌, Bool, true, false, not, Option, none, some, List, [], ◌∷◌,
  ◌==◌, if◌then◌else◌, u32, length,
}
use struct.Dlist.{Heap, Cmd, ◌>>◌, skip, write, set_next, set_prev, load_next, load_prev}

pub data Errno : Type 0 where
  success einval enomem eexist enoent : Errno

-- The table and its entries; `Data` of an entry is `bytes`.
pub record HashTable : Type 0 where
  pub number_of_burkets : ℕ
  pub number_of_node : ℕ
  pub hash_table : ℕ
  pub fast_list : ℕ
  pub entries : Heap
  pub fast : Heap
  pub brothers : Heap
  pub id_node : ℕ → ℕ
  pub data_size : ℕ → ℕ
  pub bytes : ℕ → List ℕ
  pub child : ℕ → ℕ
  pub parent : ℕ → ℕ

-- `sizeof(listentry_t)`, and the addresses of the second and the third list entry. What is taken for a
-- second list entry is never below 16.
abbrev pub link_size : ℕ
link_size = 16

abbrev pub fast_of : ℕ → ℕ
fast_of e = e + link_size

abbrev pub entry_of : ℕ → ℕ
entry_of f = f - link_size

abbrev pub brother_of : ℕ → ℕ
brother_of e = e + 2 * link_size

abbrev pub burket_at : HashTable → ℕ → ℕ
burket_at t i = t.hash_table + link_size * i

-- `&table->HashTable[idNode % table->NumberOfBurkets]`; the remainder by zero is a fault.
abbrev pub with_burket : {A : Type 0} → ℕ → HashTable → (ℕ → Option A) → Option A
with_burket id_node t k =
    if t.number_of_burkets == 0 then none else k (burket_at t (id_node % t.number_of_burkets))

-- What a call returns, and the table pointer with the table after it.
abbrev pub Outcome : Type 0
Outcome = Option (Errno × Option HashTable)

abbrev pub write_at : {A : Type 0} → (ℕ → A) → ℕ → A → ℕ → A
write_at f p v x = if x == p then v else f x

abbrev pub with_live : Bool → ℕ → Heap → Heap
with_live b p h = record h { live = write_at h.live p b }

-- The block that `malloc` returned becomes an entry, with the fields that `memset` leaves zero.
unfoldable pub fresh_entry : (e id_node : ℕ) → List ℕ → HashTable → HashTable
fresh_entry e id_node bytes t = record t {
  entries = record t.entries {
    live = write_at t.entries.live e true;
    next = write t.entries.next e 0;
    prev = write t.entries.prev e 0;
  };
  fast = record t.fast {
    live = write_at t.fast.live (fast_of e) true;
    next = write t.fast.next (fast_of e) 0;
    prev = write t.fast.prev (fast_of e) 0;
  };
  brothers = record t.brothers {
    live = write_at t.brothers.live (brother_of e) true;
    next = write t.brothers.next (brother_of e) 0;
    prev = write t.brothers.prev (brother_of e) 0;
  };
  id_node = write_at t.id_node e id_node;
  data_size = write_at t.data_size e (length bytes);
  bytes = write_at t.bytes e bytes;
  child = write_at t.child e 0;
  parent = write_at t.parent e 0;
}

-- `_FreeMemory(entry)`
unfoldable pub free_entry : ℕ → HashTable → HashTable
free_entry e t = record t {
  entries = with_live false e t.entries;
  fast = with_live false (fast_of e) t.fast;
  brothers = with_live false (brother_of e) t.brothers;
}

-- The loop over a bucket from `p` on, up to the entry with the id or the head.
unfoldable pub find_from : (fuel id_node head p : ℕ) → HashTable → Option ℕ
find_from zero id_node head p t = none
find_from (suc fuel) id_node head p t =
    let rest = find_from fuel id_node head (t.entries.next p) t in
    if p == head
    then some p
    else (if t.entries.live p then (if t.id_node p == id_node then some p else rest) else none)

unfoldable pub find_in : (fuel id_node head : ℕ) → HashTable → Option ℕ
find_in fuel id_node head t =
    if t.entries.live head then find_from fuel id_node head (t.entries.next head) t else none

-- The links that `InsertHashEntry` makes at the front of a bucket, of the list of all entries, and
-- of the list of the brothers.
unfoldable pub link_entry : (head e : ℕ) → Cmd
link_entry head e =
    (load_next head λ f. set_next e f)
    >> (load_next e λ f. set_prev f e)
    >> set_next head e
    >> set_prev e head

unfoldable pub link_fast : (head f : ℕ) → Cmd
link_fast head f =
    (load_next head λ n. set_next f n)
    >> set_prev f head
    >> (load_next head λ n. set_prev n f)
    >> set_next head f

unfoldable pub link_brother : ℕ → Cmd
link_brother b = set_next b b >> set_prev b b

-- `InsertHashEntry`, from the test behind the loop on.
unfoldable pub insert_at : (head e found : ℕ) → HashTable → Outcome
insert_at head e found t =
    if not (found == head) then some (eexist, some t) else (elim (link_entry head e t.entries) [
      | none ↦ none
      | some entries ↦ elim (link_fast t.fast_list (fast_of e) t.fast) [
        | none ↦ none
        | some fast ↦ elim (link_brother (brother_of e) t.brothers) [
          | none ↦ none
          | some brothers ↦ some (
            success,
            some (record t {
              entries = entries;
              fast = fast;
              brothers = brothers;
              child = write_at t.child e 0;
              parent = write_at t.parent e 0;
              number_of_node = u32 (t.number_of_node + 1);
            }),
          )
        ]
      ]
    ])

-- `InsertHashEntry`
unfoldable pub insert_entry :
    ℕ → (malloc : Option ℕ) → (id_node : ℕ) → List ℕ → Option HashTable → Outcome
insert_entry fuel malloc id_node bytes none = some (einval, none)
insert_entry fuel malloc id_node bytes (some t) = with_burket id_node t λ head. elim malloc [
  | none ↦ some (enomem, some t)
  | some e ↦ elim (find_in fuel id_node head (fresh_entry e id_node bytes t)) [
    | none ↦ none
    | some found ↦ insert_at head e found (fresh_entry e id_node bytes t)
  ]
]

-- The removal of a list entry, which ends as a list of its own, as the code has it for `Entry`, and
-- for `FastEntry` and `BrotherEntry`.
unfoldable pub unlink : ℕ → Cmd
unlink e =
    (load_prev e λ b. load_next e λ f. set_next b f)
    >> (load_next e λ f. load_prev e λ b. set_prev f b)
    >> set_prev e e
    >> set_next e e

unfoldable pub unlink_fast : ℕ → Cmd
unlink_fast f =
    (load_prev f λ b. load_next f λ n. set_next b n)
    >> (load_next f λ n. load_prev f λ b. set_prev n b)
    >> set_next f f
    >> set_prev f f

-- An entry that goes, in `RemoveHashEntry`, `EnumHashEntry` and `ClearHashTable`.
unfoldable pub discard : ℕ → HashTable → Option HashTable
discard e t = elim (unlink e t.entries) [
  | none ↦ none
  | some entries ↦ elim (unlink_fast (fast_of e) t.fast) [
    | none ↦ none
    | some fast ↦ some (record (free_entry e (record t { entries = entries; fast = fast })) {
      number_of_node = u32 (t.number_of_node + 2 ^ 32 - 1);
    })
  ]
]

-- `RemoveHashEntry`
unfoldable pub remove_entry : (fuel id_node : ℕ) → Option HashTable → Outcome
remove_entry fuel id_node none = some (einval, none)
remove_entry fuel id_node (some t) = with_burket id_node t λ head.
    elim (find_in fuel id_node head t) [
      | none ↦ none
      | some found ↦
          if found == head
          then some (enoent, some t)
          else (elim (discard found t) [ none ↦ none | some t' ↦ some (success, some t') ])
    ]

-- `_GetZipperNode`: the entry, or NULL.
unfoldable pub get_node : (fuel id_node : ℕ) → HashTable → Option ℕ
get_node fuel id_node t = with_burket id_node t λ head. elim (find_in fuel id_node head t) [
  | none ↦ none
  | some found ↦ some (if found == head then 0 else found)
]

-- `FindHashEntry`: the bytes of the entry with its `DataSize`, or NULL.
unfoldable pub find_entry : (fuel id_node : ℕ) → Option HashTable → Option (Option (List ℕ × ℕ))
find_entry fuel id_node none = some none
find_entry fuel id_node (some t) = with_burket id_node t λ head.
    elim (find_in fuel id_node head t) [
      | none ↦ none
      | some found ↦ some (if found == head then none else some (t.bytes found, t.data_size found))
    ]
