-- ===== src/HashTable/Loop.antt =====
-- EnumHashEntry of hashtable.cpp against a walk over the association list.
use struct.Base.{
  ℕ, zero, suc, ◌%◌, ◌<◌, ◌≡◌, inl, inr, refl, ◌∙◌, sym, ap, subst, arith, true, Bool-cases, some,
  List, [], ◌∷◌, ◌++◌, occurrences, append_assoc, ◌==◌, if◌then◌else◌, length,
}
use struct.Dlist.Add.{first, cut-Linked, head_live}
use struct.HashTable.{HashTable}
use struct.HashTable.Enum.{Routine, deletes, continues, enum_from, enum_entry}
use struct.HashTable.Rep.{IsTable, Items, contents, fasts}
use struct.HashTable.Visit.{
  Spared, Spared-trans, contents-Spared, call, stays, once, around, visit_lem, contents_staying,
}

module _ {C : Type 0} (routine : Routine C) where
  -- The walk over the association list: the items that stay, with the bytes that the routine leaves,
  -- the last bit of the last action, and the context.
  abbrev pub walk : Items → (action : ℕ) → C → Items × ℕ × C
  walk [] action context = ([], action % 2, context)
  walk ((id, bytes, size) ∷ items) action context =
      let (action', bytes', context') = routine id bytes size context in
      let rest = walk items action' context' in
      let (kept, last, context'') =
        if continues action' then rest else (items, action' % 2, context') in
      (if deletes action' then kept else (id, bytes', size) ∷ kept, last, context'')

  -- What the loop leaves: the items that the walk keeps.
  abbrev Walked : (fuel pos : ℕ) (us vs : List ℕ) → HashTable → ℕ → C → Type 0
  Walked fuel pos us vs t action context =
      (t' : HashTable) × (ws : List ℕ) × (last : ℕ) × (context' : C) × (enum_from routine fuel
          t.fast_list pos action context t
        ≡ some (last, context', t'))
      × (walk (contents t vs) action context ≡ (contents t' ws, last, context'))
      × IsTable t' (us ++ ws)
      × Spared t t' vs

  enum_from_lem :
      (fuel : ℕ) (us vs : List ℕ) (t : HashTable) (action : ℕ) (context : C)
      → IsTable t (us ++ vs)
      → length vs < fuel
      → Walked fuel (first t.fast_list (fasts vs)) us vs t action context
  unfolding enum_from occurrences
  enum_from_lem zero us vs t action context is lt = absurd (omega arith)
  enum_from_lem (suc fuel) us [] t action context is lt =
      let here : (t.fast_list == t.fast_list) ≡ true = ground arith in
      (
        t,
        [],
        action % 2,
        context,
        rw here refl,
        refl,
        is,
        record { same_id = refl; same_size = refl; same_list = refl; others = λ z o. refl },
      )
  enum_from_lem (suc fuel) us (e ∷ vs) t action context is lt =
      let (live, live', next, differ) = around routine us e vs t is context in
      let (t', run, is', spared, bytes) = visit_lem routine us e vs t is context in
      let once = once routine us e vs t is context in
      let a = (call routine t context e).0 in
      let c = (call routine t context e).2 in
      let ds = stays routine us e vs t is context (deletes a) in
      let (t2, ws, last, c2, run2, walked, is2, spared2) =
        enum_from_lem fuel (us ++ ds) vs t' a c is' (omega (arith, lt)) in
      let run2' : enum_from routine fuel t.fast_list (first t.fast_list (fasts vs)) a c t'
          ≡ some (last, c2, t2) =
        subst (λ l. enum_from routine fuel l (first l (fasts vs)) a c t' ≡ some (last, c2, t2))
          spared.same_list run2 in
      let rest : contents t' vs ≡ contents t vs =
        contents-Spared t t' (e ∷ []) vs spared (λ z o. ground (arith, o, once z, once e)) in
      let walked' : walk (contents t vs) a c ≡ (contents t2 ws, last, c2) =
        ap (λ w. walk w a c) (sym rest) ∙ walked in
      let all : Spared t t2 (e ∷ vs) = Spared-trans t t' t2 e vs spared spared2 in
      elim (Bool-cases (continues a)) [
        | inl more ↦ (
          t2,
          ds ++ ws,
          last,
          c2,
          rw (differ, enum_from, run, next, more, run2') refl,
          rw (more, walked')
              (ap (λ w. (w, last, c2))
                (contents_staying routine us e vs t is context t2 (deletes a) ws all.same_id
                  all.same_size (spared2.others e (ground (arith, once e)) ∙ bytes))),
          subst (IsTable t2) (append_assoc us ds ws) is2,
          all,
        )
        | inr stop ↦ (
          t',
          ds ++ vs,
          a % 2,
          c,
          rw (differ, enum_from, run, stop) refl,
          rw (stop, sym rest)
              (ap (λ w. (w, a % 2, c))
                (contents_staying routine us e vs t is context t' (deletes a) vs spared.same_id
                  spared.same_size bytes)),
          subst (IsTable t') (append_assoc us ds vs) is',
          record {
            same_id = spared.same_id;
            same_size = spared.same_size;
            same_list = spared.same_list;
            others = λ z o. spared.others z (omega (arith, o));
          },
        )
      ]

  -- On a well-formed table and with fuel above the number of its entries, EnumHashEntry ends without
  -- a fault; it calls the routine, which may write the bytes of the entry at hand, as the walk over
  -- what the table holds does, in which ENUM_CONTINUE goes on and its absence stops, as the code has
  -- it and the comment in hashtable.h has not; it has the walk's result and context, and leaves a
  -- well-formed table with the items that the walk keeps, in their order and with the bytes written.
  pub enum_entry_lem :
      (fuel : ℕ) (es : List ℕ) (t : HashTable) (context : C)
      → IsTable t es
      → length es < fuel
      → (t' : HashTable) × (es' : List ℕ) × (last : ℕ) × (context' : C) × (enum_entry fuel
            (some routine)
            context
            (some t)
          ≡ some (last, context', some t'))
        × IsTable t' es'
        × (walk (contents t es) 1 context ≡ (contents t' es', last, context'))
  unfolding enum_entry
  enum_entry_lem fuel es t context is lt =
      let (t', ws, last, c, run, walked, is', spared) =
        enum_from_lem fuel [] es t 1 context is lt in
      let live = head_live t.fast t.fast_list [] (fasts es) is.fast_links in
      let (next, prev) = cut-Linked t.fast t.fast_list [] (fasts es) is.fast_links in
      (t', ws, last, c, rw (live, enum_entry, next, run) refl, is', walked)
