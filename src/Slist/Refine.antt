-- ===== src/Slist/Refine.antt =====
-- However the steps of the threads interleave, the calls of slist.h act on one stack.
use struct.Base.{ℕ, ◌∙◌, refl, sym, ap, arith, List, [], ◌∷◌, ◌==◌, occurrences}
use struct.Slist.{
  interlocked, linking, adding, peeking, removing, Sys, Event, Step, call_add, link, cmpxchg_add,
  retry_add, call_remove, peek, cmpxchg_remove, retry_remove, del_all, init, Run, done, step,
}
use struct.Slist.Inv.{Inv, Replies, after}
use struct.Slist.Steps.{
  top_of, mine, call_add_Inv, link_Inv, cmpxchg_add_Inv, restart_Inv, first_on, call_remove_Inv,
  cmpxchg_remove_Inv, del_all_Inv,
}

-- Where pointers have 32 bits and cmpxchg is InterlockedCompareExchange, each step of slist_add,
-- slist_remove_head and slist_del_all, by whichever thread, keeps the invariant of a stack, on which
-- the event of the step acts with the reply that it has.
pub Step-Inv :
    {s s' : Sys} {ev : Event} (xs : List ℕ)
    → Step interlocked s ev s'
    → Inv s xs
    → Replies ev xs × Inv s' (after ev xs)
unfolding after
Step-Inv {s} xs (call_add t n _ ne c) is = (tt, call_add_Inv s xs is t n ne c)
Step-Inv {s} xs (link t n e th) is = (tt, link_Inv s xs is t n e th)
Step-Inv {s} xs (cmpxchg_add t n e th f) is = (
  ap (λ p. p == 0) (sym f) ∙ (top_of s.next s.first xs is.chain).1,
  cmpxchg_add_Inv s xs is t n e th f,
)
Step-Inv {s} xs (retry_add t n e th f) is =
    let (ne, b, x) = mine s xs is t (adding n e) th in
    (tt, restart_Inv s xs is t (linking n s.first) (ne, b))
Step-Inv {s} xs (call_remove t _ free) is = (tt, call_remove_Inv s xs is t free)
Step-Inv {s} xs (peek t e th ne) is =
    let (l, i) = mine s xs is t (peeking e) th in
    (tt, restart_Inv s xs is t (removing e (s.next e)) (l, i ne, refl))
Step-Inv {s} xs (cmpxchg_remove t e m th f) is =
    let (a, b, c) = cmpxchg_remove_Inv s xs is t e m th f in ((a, b), c)
Step-Inv {s} xs (retry_remove t e m th f) is =
    let (l, i, x) = mine s xs is t (removing e m) th in
    (tt, restart_Inv s xs is t (peeking s.first) (l, first_on s xs is t))
Step-Inv {s} xs (del_all t _ free) is =
    ((top_of s.next s.first xs is.chain).0, del_all_Inv s xs is t free)

-- A stack on which the events act, one after the other.
abbrev pub Accepts : List Event → List ℕ → Type 0
Accepts [] xs = Unit
Accepts (ev ∷ evs) xs = Replies ev xs × Accepts evs (after ev xs)

abbrev pub left_by : List Event → List ℕ → List ℕ
left_by [] xs = xs
left_by (ev ∷ evs) xs = left_by evs (after ev xs)

run_keeps :
    {s s' : Sys} {evs : List Event} (xs : List ℕ)
    → Run interlocked s evs s'
    → Inv s xs
    → Accepts evs xs × Inv s' (left_by evs xs)
run_keeps xs done is = (tt, is)
run_keeps xs (step {ev = ev} st run) is =
    let (r, is1) = Step-Inv xs st is in
    let (rs, is2) = run_keeps (after ev xs) run is1 in ((r, rs), is2)

pub init-Inv : (next : ℕ → ℕ) → Inv (init next) []
unfolding init occurrences
init-Inv next = record {
  chain = refl;
  uniq = λ z. omega arith;
  on = λ z i. absurd (omega (arith, i));
  own = λ t. tt;
}

-- Where pointers have 32 bits and cmpxchg is InterlockedCompareExchange, and so not where it is the
-- instruction without a lock prefix, however calls of slist_add, slist_remove_head and slist_del_all
-- on a list fresh from slist_init interleave, if a client adds only nodes that are its own and calls
-- that take nodes exclude each other as slist.h demands, their replies are those of one stack on
-- which they act one after the other, and the list is what that stack has left.
pub interleavings_refine :
    (next : ℕ → ℕ) (evs : List Event) (s : Sys)
    → Run interlocked (init next) evs s
    → Accepts evs [] × Inv s (left_by evs [])
interleavings_refine next evs s run = run_keeps [] run (init-Inv next)
