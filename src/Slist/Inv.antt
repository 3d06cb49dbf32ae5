-- ===== src/Slist/Inv.antt =====
-- The invariant of the lock-free stack: what is on it, and what the threads rely on.
use struct.Base.{
  ℕ, ◌≤◌, ◌<◌, ◌≡◌, ◌≢◌, ◌∙◌, sym, ap, subst, arith, Bool, Bool-cases, inl, inr, true, false, some,
  List, [], ◌∷◌, ◌==◌, if◌then◌else◌, occurrences,
}
use struct.Slist.{
  Thread, idle, linking, adding, peeking, removing, comparing_add, comparing_remove, busy, listed,
  Sys, Event, silent, added, removed, took,
}

-- From the pointer `p` the nodes `xs`, up to NULL.
abbrev pub Chain : (ℕ → ℕ) → ℕ → List ℕ → Type 0
Chain next p [] = p ≡ 0
Chain next p (x ∷ xs) = (p ≡ x) × (x ≢ 0) × Chain next (next x) xs

pub Chain-frame :
    (f g : ℕ → ℕ) (p : ℕ) (xs : List ℕ)
    → ((z : ℕ) → 0 < occurrences z xs → g z ≡ f z)
    → Chain f p xs
    → Chain g p xs
unfolding occurrences
Chain-frame f g p [] same c = c
Chain-frame f g p (x ∷ xs) same (e, ne, c) = (
  e,
  ne,
  Chain-frame f g (g x) xs (λ z i. same z (omega arith))
      (subst (λ w. Chain f w xs) (sym (same x (ground arith))) c),
)

-- What a thread relies on where it is. Where `cmpxchg` is one step, none is inside it.
abbrev pub Holds : Sys → List ℕ → ℕ → Thread → Type 0
Holds s xs t idle = Unit
Holds s xs t (linking n e) = (n ≢ 0) × (s.place n ≡ busy t)
Holds s xs t (adding n e) = (n ≢ 0) × (s.place n ≡ busy t) × (s.next n ≡ e)
Holds s xs t (peeking e) = (s.lock ≡ some t) × (e ≢ 0 → 0 < occurrences e xs)
Holds s xs t (removing e m) = (s.lock ≡ some t) × (0 < occurrences e xs) × (s.next e ≡ m)
Holds s xs t (comparing_add n e seen) = true ≡ false
Holds s xs t (comparing_remove e m seen) = true ≡ false

-- The stack has the nodes `xs`, from the top.
pub record Inv (s : Sys) (xs : List ℕ) : Type 0 where
  pub chain : Chain s.next s.first xs
  pub uniq : (z : ℕ) → occurrences z xs ≤ 1
  pub on : (z : ℕ) → 0 < occurrences z xs → s.place z ≡ listed
  pub own : (t : ℕ) → Holds s xs t (s.thread t)

-- A step that takes nothing from the thread `u`.
pub record Spares (s s' : Sys) (xs xs' : List ℕ) (u : ℕ) : Type 0 where
  pub keeps : (n : ℕ) → s.place n ≡ busy u → (s'.place n ≡ busy u) × (s'.next n ≡ s.next n)
  pub lock_kept : s.lock ≡ some u → s'.lock ≡ some u
  pub list_kept :
      s.lock ≡ some u
      → (z : ℕ) → 0 < occurrences z xs
      → (0 < occurrences z xs') × (s'.next z ≡ s.next z)

pub Holds-spared :
    (s s' : Sys) (xs xs' : List ℕ) (u : ℕ) (th : Thread)
    → Spares s s' xs xs' u
    → Holds s xs u th
    → Holds s' xs' u th
Holds-spared s s' xs xs' u idle sp h = tt
Holds-spared s s' xs xs' u (linking n e) sp (ne, b) = (ne, (sp.keeps n b).0)
Holds-spared s s' xs xs' u (adding n e) sp (ne, b, x) = (ne, (sp.keeps n b).0, (sp.keeps n b).1 ∙ x)
Holds-spared s s' xs xs' u (peeking e) sp (l, i) =
    (sp.lock_kept l, λ ne. (sp.list_kept l e (i ne)).0)
Holds-spared s s' xs xs' u (removing e m) sp (l, i, x) =
    (sp.lock_kept l, (sp.list_kept l e i).0, (sp.list_kept l e i).1 ∙ x)
Holds-spared s s' xs xs' u (comparing_add n e seen) sp h = h
Holds-spared s s' xs xs' u (comparing_remove e m seen) sp h = h

-- All threads after a step of `t`.
pub own_after :
    (s s' : Sys) (xs xs' : List ℕ) (t : ℕ) (th : Thread)
    → ((u : ℕ) → s'.thread u ≡ (if u == t then th else s.thread u))
    → Holds s' xs' t th
    → ((u : ℕ) → u ≢ t → Spares s s' xs xs' u)
    → ((u : ℕ) → Holds s xs u (s.thread u))
    → (u : ℕ) → Holds s' xs' u (s'.thread u)
own_after s s' xs xs' t th moves mine sp own u = elim (Bool-cases (u == t)) [
  | inl e ↦
      let at_t : u ≡ t = ground (arith, e) in
      let same : s'.thread u ≡ th = moves u ∙ ap (λ b. if b then th else s.thread u) e in
      subst (λ w. Holds s' xs' u w) (sym same) (subst (λ w. Holds s' xs' w th) (sym at_t) mine)
  | inr e ↦
      let same : s'.thread u ≡ s.thread u = moves u ∙ ap (λ b. if b then th else s.thread u) e in
      subst (λ w. Holds s' xs' u w) (sym same)
        (Holds-spared s s' xs xs' u (s.thread u) (sp u (λ z. ground (arith, z, e))) (own u))
]

-- What the call returns for a stack with the nodes `xs`, and what it leaves.
abbrev pub is_nil : List ℕ → Bool
is_nil [] = true
is_nil (x ∷ xs) = false

abbrev pub top_entry : List ℕ → ℕ
top_entry [] = 0
top_entry (x ∷ xs) = x

abbrev pub Replies : Event → List ℕ → Type 0
Replies silent xs = Unit
Replies (added n was_empty) xs = was_empty ≡ is_nil xs
Replies (removed e) xs = (e ≡ top_entry xs) × (is_nil xs ≡ false)
Replies (took p) xs = p ≡ top_entry xs

unfoldable pub after : Event → List ℕ → List ℕ
after silent xs = xs
after (added n was_empty) xs = n ∷ xs
after (removed e) [] = []
after (removed e) (x ∷ xs) = xs
after (took p) xs = []
