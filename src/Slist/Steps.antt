-- ===== src/Slist/Steps.antt =====
-- What each step of the lock-free stack keeps.
use struct.Base.{
  ℕ, ◌<◌, ◌≡◌, ◌≢◌, ◌∙◌, refl, sym, ap, subst, arith, false, none, some, List, [], ◌∷◌, ◌==◌,
  if◌then◌else◌, occurrences,
}
use struct.Slist.{
  Thread, idle, linking, adding, peeking, removing, comparing_add, comparing_remove, client, busy,
  listed, Sys, removed, at_thread, at_place, given_back,
}
use struct.Slist.Inv.{
  Chain, Chain-frame, Holds, Holds-spared, Inv, own_after, is_nil, top_entry, after,
}

pub top_of :
    (f : ℕ → ℕ) (p : ℕ) (xs : List ℕ) → Chain f p xs → (p ≡ top_entry xs) × ((p == 0) ≡ is_nil xs)
top_of f p [] c = (c, ground (arith, c))
top_of f p (x ∷ xs) (e, ne, c) = (e, ground (arith, e, ne))

module _ (s : Sys) (xs : List ℕ) (is : Inv s xs) (t : ℕ) where
  pub mine : (th : Thread) → s.thread t ≡ th → Holds s xs t th
  mine th e = subst (Holds s xs t) e (is.own t)

  pub call_add_Inv :
      (n : ℕ)
      → n ≢ 0
      → s.place n ≡ client
      → Inv (at_place n (busy t) (at_thread t (linking n s.first) s)) xs
  call_add_Inv n ne c =
      let s' : Sys = at_place n (busy t) (at_thread t (linking n s.first) s) in
      record {
        chain = is.chain;
        uniq = is.uniq;
        on = λ z i. ground (arith, is.on z i, c);
        own =
            own_after s s' xs xs t (linking n s.first) (λ u. refl) (ne, ground arith)
              (λ u d. record {
                keeps = λ m b. (ground (arith, b, c), refl);
                lock_kept = λ l. l;
                list_kept = λ l z i. (i, refl);
              })
              is.own;
      }

  pub link_Inv :
      (n e : ℕ)
      → s.thread t ≡ linking n e
      → Inv (at_thread t (adding n e) (record s { next = λ z. if z == n then e else s.next z })) xs
  link_Inv n e th =
      let (ne, b) = mine (linking n e) th in
      let s' : Sys =
        at_thread t (adding n e) (record s { next = λ z. if z == n then e else s.next z }) in
      let same : (z : ℕ) → 0 < occurrences z xs → s'.next z ≡ s.next z =
        λ z i. ground (arith, is.on z i, b) in
      record {
        chain = Chain-frame s.next s'.next s.first xs same is.chain;
        uniq = is.uniq;
        on = is.on;
        own =
            own_after s s' xs xs t (adding n e) (λ u. refl) (ne, b, ground arith)
              (λ u d. record {
                keeps = λ m b'. (b', ground (arith, b, b', d));
                lock_kept = λ l. l;
                list_kept = λ l z i. (i, same z i);
              })
              is.own;
      }

  pub cmpxchg_add_Inv :
      (n e : ℕ)
      → s.thread t ≡ adding n e
      → s.first ≡ e
      → Inv (at_place n listed (at_thread t idle (record s { first = n }))) (n ∷ xs)
  unfolding occurrences
  cmpxchg_add_Inv n e th f =
      let (ne, b, x) = mine (adding n e) th in
      let s' : Sys = at_place n listed (at_thread t idle (record s { first = n })) in
      record {
        chain = (refl, ne, subst (λ p. Chain s.next p xs) (f ∙ sym x) is.chain);
        uniq = λ z. ground (arith, is.uniq z, is.on z, b);
        on = λ z i. ground (arith, i, is.on z);
        own =
            own_after s s' xs (n ∷ xs) t idle (λ u. refl) tt
              (λ u d. record {
                keeps = λ m b'. (ground (arith, b, b', d), refl);
                lock_kept = λ l. l;
                list_kept = λ l z i. (omega (arith, i), refl);
              })
              is.own;
      }

  -- A thread that starts over.
  pub restart_Inv : (th : Thread) → Holds s xs t th → Inv (at_thread t th s) xs
  restart_Inv th holds = record {
    chain = is.chain;
    uniq = is.uniq;
    on = is.on;
    own =
        own_after s (at_thread t th s) xs xs t th (λ u. refl) (by th holds)
          (λ u d. record {
            keeps = λ m b. (b, refl);
            lock_kept = λ l. l;
            list_kept = λ l z i. (i, refl);
          })
          is.own;
  }
    where
      by : (th : Thread) → Holds s xs t th → Holds (at_thread t th s) xs t th
      by idle h = tt
      by (linking n e) h = h
      by (adding n e) h = h
      by (peeking e) h = h
      by (removing e m) h = h
      by (comparing_add n e seen) h = h
      by (comparing_remove e m seen) h = h

  pub first_on : s.first ≢ 0 → 0 < occurrences s.first xs
  unfolding occurrences
  first_on ne = by xs is.chain
    where
      by : (xs : List ℕ) → Chain s.next s.first xs → 0 < occurrences s.first xs
      by [] c = absurd (ne c)
      by (x ∷ xs) (e, _, c) = ground (arith, e)

  pub call_remove_Inv :
      s.lock ≡ none → Inv (at_thread t (peeking s.first) (record s { lock = some t })) xs
  call_remove_Inv free =
      let s' : Sys = at_thread t (peeking s.first) (record s { lock = some t }) in
      record {
        chain = is.chain;
        uniq = is.uniq;
        on = is.on;
        own =
            own_after s s' xs xs t (peeking s.first) (λ u. refl) (refl, first_on)
              (λ u d. record {
                keeps = λ m b. (b, refl);
                lock_kept = λ l. absurd (cc (l, free));
                list_kept = λ l z i. (i, refl);
              })
              is.own;
      }

  pub cmpxchg_remove_Inv :
      (e m : ℕ)
      → s.thread t ≡ removing e m
      → s.first ≡ e
      → (e ≡ top_entry xs)
        × (is_nil xs ≡ false)
        × Inv
            (at_place e client (at_thread t idle (record s { first = m; lock = none })))
            (after (removed e) xs)
  unfolding occurrences after
  cmpxchg_remove_Inv e m th f = by xs is (mine (removing e m) th)
    where
      s' : Sys
      s' = at_place e client (at_thread t idle (record s { first = m; lock = none }))

      by :
          (xs : List ℕ)
          → Inv s xs
          → Holds s xs t (removing e m)
          → (e ≡ top_entry xs) × (is_nil xs ≡ false) × Inv s' (after (removed e) xs)
      by [] is (l, i, x) = absurd (omega (arith, i))
      by (x ∷ xs) is (l, i, behind) =
          let (fx, ne, c) = is.chain in
          let ex : e ≡ x = sym f ∙ fx in
          (
            ex,
            refl,
            record {
              chain = subst (λ p. Chain s.next p xs) (ap s.next (sym ex) ∙ behind) c;
              uniq = λ z. omega (arith, is.uniq z);
              on = λ z j. ground (arith, j, is.on z, is.uniq z, ex);
              own =
                  own_after s s' (x ∷ xs) xs t idle (λ u. refl) tt
                    (λ u d. record {
                      keeps = λ n b. (ground (arith, b, is.on x, ex), refl);
                      lock_kept = λ l'. absurd (d (cc (l, l')));
                      list_kept = λ l' z j. absurd (d (cc (l, l')));
                    })
                    is.own;
            },
          )

  pub del_all_Inv :
      s.lock ≡ none → Inv (record s { first = 0; place = λ z. given_back (s.place z) }) []
  unfolding occurrences
  del_all_Inv free =
      let s' : Sys = record s { first = 0; place = λ z. given_back (s.place z) } in
      record {
        chain = refl;
        uniq = λ z. omega arith;
        on = λ z i. absurd (omega (arith, i));
        own = λ u.
            Holds-spared s s' xs [] u (s.thread u)
              (record {
                keeps = λ n b. (ap given_back b, refl);
                lock_kept = λ l. l;
                list_kept = λ l z i. absurd (cc (l, free));
              })
              (is.own u);
      }
