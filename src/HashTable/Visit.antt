-- ===== src/HashTable/Visit.antt =====
-- What one turn of the loop of EnumHashEntry in hashtable.cpp leaves of the table.
use struct.Base.{
  ℕ, ◌+◌, ◌≤◌, ◌<◌, one, ◌≡◌, refl, ◌∙◌, sym, ap, subst, arith, true, false, Bool, some, List, [],
  ◌∷◌, ◌++◌, append-nil, occurrences, occurrences-append, append_assoc, ◌==◌, if◌then◌else◌,
}
use struct.Dlist.Seg.{IsDlist}
use struct.Dlist.Add.{first}
use struct.Dlist.Walk.{entry_links}
use struct.HashTable.{HashTable, fast_of, entry_of, write_at, discard}
use struct.HashTable.Enum.{Routine, deletes, visit}
use struct.HashTable.Rep.{IsTable, contents, contents_same, entry_live, fasts, fasts-append}
use struct.HashTable.Remove.{Kept, Kept-refl, discard_lem}

-- What a walk over the entries `vs` leaves: only their bytes are written.
pub record Spared (t t' : HashTable) (vs : List ℕ) : Type 0 where
  pub same_id : t'.id_node ≡ t.id_node
  pub same_size : t'.data_size ≡ t.data_size
  pub same_list : t'.fast_list ≡ t.fast_list
  pub others : (z : ℕ) → occurrences z vs ≡ 0 → t'.bytes z ≡ t.bytes z

pub contents-Spared :
    (t t' : HashTable) (vs es : List ℕ)
    → Spared t t' vs
    → ((z : ℕ) → 0 < occurrences z es → occurrences z vs ≡ 0)
    → contents t' es ≡ contents t es
contents-Spared t t' vs es sp out =
    contents_same t t' es
      (λ z i. (ap (λ f. f z) sp.same_id, sp.others z (out z i), ap (λ f. f z) sp.same_size))

pub Spared-trans :
    (t t1 t2 : HashTable) (e : ℕ) (vs : List ℕ)
    → Spared t t1 (e ∷ [])
    → Spared t1 t2 vs
    → Spared t t2 (e ∷ vs)
unfolding occurrences
Spared-trans t t1 t2 e vs a b = record {
  same_id = b.same_id ∙ a.same_id;
  same_size = b.same_size ∙ a.same_size;
  same_list = b.same_list ∙ a.same_list;
  others = λ z o. b.others z (omega (arith, o)) ∙ a.others z (omega (arith, o));
}

module _ {C : Type 0} (routine : Routine C) where
  abbrev pub call : HashTable → C → ℕ → ℕ × List ℕ × C
  call t context e = routine (t.id_node e) (t.bytes e) (t.data_size e) context

  -- The table with what the routine has written for the entry `e`.
  abbrev written : HashTable → C → ℕ → HashTable
  written t context e = record t { bytes = write_at t.bytes e (call t context e).1 }

  visit_run :
      (t t' : HashTable) (context : C) (pos : ℕ)
      → t.entries.live (entry_of pos) ≡ true
      → t.fast.live pos ≡ true
      → (if deletes (call t context (entry_of pos)).0
          then discard (entry_of pos) (written t context (entry_of pos))
          else some (written t context (entry_of pos)))
        ≡ some t'
      → visit routine pos context t
        ≡ some ((call t context (entry_of pos)).0, (call t context (entry_of pos)).2, t')
  unfolding visit
  visit_run t t' context pos live live' run = rw (live, visit, live', run) refl

  module _ (us : List ℕ) (e : ℕ) (vs : List ℕ) (t : HashTable) (is : IsTable t (us ++ (e ∷ vs)))
      (context : C) where
    abbrev called : ℕ × List ℕ × C
    called = call t context e

    abbrev t1 : HashTable
    t1 = written t context e

    -- What stays of the entry.
    abbrev pub stays : Bool → List ℕ
    stays b = if b then [] else e ∷ []

    written_IsTable : IsTable t1 (us ++ (e ∷ vs))
    written_IsTable = record {
      some_burkets = is.some_burkets;
      burkets = is.burkets;
      fast_links = is.fast_links;
      no_head = is.no_head;
      uniq = is.uniq;
      not_null = is.not_null;
      brother_live = is.brother_live;
      ids = is.ids;
      number = is.number;
    }

    fate :
        (b : Bool)
        → (t' : HashTable) × ((if b then discard e t1 else some t1) ≡ some t')
          × IsTable t' ((us ++ stays b) ++ vs)
          × Kept t1 t'
    fate true =
        let (t', run, is', kept, freed) = discard_lem t1 us e vs written_IsTable in
        (t', run, subst (λ w. IsTable t' (w ++ vs)) (sym (append-nil us)) is', kept)
    fate false = (
      t1,
      refl,
      subst (IsTable t1) (sym (append_assoc us (e ∷ []) vs)) written_IsTable,
      Kept-refl t1,
    )

    -- The entry is once in the table.
    pub once : (z : ℕ) → occurrences z us + (one z e + occurrences z vs) ≤ 1
    unfolding occurrences
    once z = omega (arith, is.uniq z, occurrences-append z us (e ∷ vs))

    pub around :
        (t.entries.live e ≡ true)
        × (t.fast.live (fast_of e) ≡ true)
        × (t.fast.next (fast_of e) ≡ first t.fast_list (fasts vs))
        × ((fast_of e == t.fast_list) ≡ false)
    unfolding occurrences
    around =
        let links = subst (IsDlist t.fast t.fast_list) (fasts-append us (e ∷ vs)) is.fast_links in
        let (live, before, next, differ, is') =
          entry_links t.fast t.fast_list (fasts us) (fast_of e) (fasts vs) links in
        (
          entry_live t (us ++ (e ∷ vs)) is e (grind (arith, occurrences-append e us (e ∷ vs))),
          live,
          next,
          differ,
        )

    pub visit_lem :
        (t' : HashTable) × (visit routine (fast_of e) context t ≡ some (called.0, called.2, t'))
        × IsTable t' ((us ++ stays (deletes called.0)) ++ vs)
        × Spared t t' (e ∷ [])
        × (t'.bytes e ≡ called.1)
    unfolding occurrences
    visit_lem =
        let (live, live', next, differ) = around in
        let (t', run, is', kept) = fate (deletes called.0) in
        let back : e ≡ entry_of (fast_of e) = omega arith in
        let at_e : (c : ℕ)
            → c ≡ entry_of (fast_of e)
            → t.entries.live c ≡ true
            → (if deletes (call t context c).0
                then discard c (written t context c)
                else some (written t context c))
              ≡ some t'
            → visit routine (fast_of e) context t
              ≡ some ((call t context c).0, (call t context c).2, t') =
          λ c eq.
            subst
              (λ c.
                t.entries.live c ≡ true
                → (if deletes (call t context c).0
                    then discard c (written t context c)
                    else some (written t context c))
                  ≡ some t'
                → visit routine (fast_of e) context t
                  ≡ some ((call t context c).0, (call t context c).2, t'))
              (sym eq) (λ l r. visit_run t t' context (fast_of e) l live' r) in
        (
          t',
          at_e e back live run,
          is',
          record {
            same_id = kept.same_id;
            same_size = kept.same_size;
            same_list = kept.same_list;
            others = λ z o. ap (λ f. f z) kept.same_bytes ∙ ground (arith, o);
          },
          ap (λ f. f e) kept.same_bytes ∙ ground arith,
        )

    -- The contents with what stays of the entry, in a table whose entry has what was written.
    pub contents_staying :
        (t' : HashTable) (b : Bool) (ws : List ℕ)
        → t'.id_node ≡ t.id_node
        → t'.data_size ≡ t.data_size
        → t'.bytes e ≡ called.1
        → (if b then contents t' ws else (t.id_node e, called.1, t.data_size e) ∷ contents t' ws)
          ≡ contents t' (stays b ++ ws)
    contents_staying t' true ws k s w = refl
    contents_staying t' false ws k s w =
        ap (λ x. x ∷ contents t' ws) (λ i. (sym k i e, sym w i, sym s i e))
