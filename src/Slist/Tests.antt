-- ===== src/Slist/Tests.antt =====
-- Threads that add and take nodes, with `cmpxchg` in its two builds.
use struct.Base.{refl, arith, true, false, none, List, [], ◌∷◌, inr}
use struct.Slist.{
  interlocked, gnu, Sys, Event, silent, added, removed, took, adding, idle, busy, client, call_add,
  link, cmpxchg_add, retry_add, call_remove, peek, cmpxchg_remove, del_all, read_add, write_add,
  init, Run, done, step, at_thread, at_place,
}
use struct.Slist.Inv.{Inv, Replies, after, Chain}
use struct.Slist.Refine.{Accepts, Step-Inv, interleavings_refine}
use struct.Slist.Alone.{Returns, add-Alone}

abbrev events : List Event
events =
    silent ∷ silent ∷ silent ∷ silent ∷ added 5 true ∷ silent ∷ silent ∷ added 6 false ∷ took 6 ∷ []

-- Two threads that add a node each, one of which has to try again, and one that takes both.
race : (s : Sys) × Run interlocked (init (λ n. 0)) events s
unfolding init
race = (
  _,
  step (call_add 1 5 refl (λ e. omega (arith, e)) refl) (
      step (call_add 2 6 refl (λ e. omega (arith, e)) refl) (
        step (link 1 5 0 refl) (
          step (link 2 6 0 refl) (
            step (cmpxchg_add 1 5 0 refl refl) (
              step (retry_add 2 6 0 refl (λ e. omega (arith, e))) (
                step (link 2 6 5 refl)
                  (step (cmpxchg_add 2 6 5 refl refl) (step (del_all 1 refl refl) done)))))))),
)

interleavings_refine_example : Accepts events [] × Inv race.0 []
unfolding after
interleavings_refine_example = interleavings_refine (λ n. 0) events race.0 race.1

-- Thread 1 has added 5, and has read the next node, none, to take 5 off again.
abbrev before : List Event
before = silent ∷ silent ∷ added 5 true ∷ silent ∷ silent ∷ []

abbrev taking : (s : Sys) × Run interlocked (init (λ n. 0)) before s
unfolding init
taking = (
  _,
  step (call_add 1 5 refl (λ e. omega (arith, e)) refl) (
      step (link 1 5 0 refl) (
        step (cmpxchg_add 1 5 0 refl refl)
          (step (call_remove 1 refl refl) (step (peek 1 5 refl (λ e. omega (arith, e))) done)))),
)

abbrev taken : Sys
taken = at_place 5 client (at_thread 1 idle (record taking.0 { first = 0; lock = none }))

Step-Inv_example : Replies (removed 5) (5 ∷ []) × Inv taken []
unfolding init after
Step-Inv_example =
    Step-Inv (5 ∷ []) (cmpxchg_remove 1 5 0 refl refl)
      (interleavings_refine (λ n. 0) before taking.0 taking.1).1

-- Thread 1 has read NULL and written it behind 5, but 6 stands on the list by now.
abbrev overtaken : Sys
overtaken = record (at_place 5 (busy 1) (at_thread 1 (adding 5 0) (init (λ n. 0)))) { first = 6 }

add-Alone_example : Returns 1 5 4 overtaken
unfolding init
add-Alone_example = add-Alone overtaken 1 5 0 (inr refl)

-- With the instruction without a lock prefix, both calls have read NULL before either writes: both
-- return true, and only the second node is on the list.
abbrev overlapping : List Event
overlapping = silent ∷ silent ∷ silent ∷ silent ∷ silent ∷ silent ∷ added 5 true ∷ added 6 true ∷ []

lost : (s : Sys) × Run gnu (init (λ n. 0)) overlapping s × Chain s.next s.first (6 ∷ [])
unfolding init
lost = (
  _,
  step (call_add 1 5 refl (λ e. omega (arith, e)) refl) (
      step (call_add 2 6 refl (λ e. omega (arith, e)) refl) (
        step (link 1 5 0 refl) (
          step (link 2 6 0 refl) (
            step (read_add 1 5 0 refl) (
              step (read_add 2 6 0 refl)
                (step (write_add 1 5 0 0 refl refl) (step (write_add 2 6 0 0 refl refl) done))))))),
  (refl, λ e. omega (arith, e), refl),
)
