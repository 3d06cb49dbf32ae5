-- ===== src/Slist.antt =====
-- The lock-free stack of slist.h, as steps of threads that interleave. Each access to memory is one
-- step. `xchg` of cmpxchg.h is one step too, and what `cmpxchg` is depends on the build. NULL is 0.
pub mod Inv
pub mod Steps
pub mod Refine
pub mod Alone
mod Tests
use struct.Base.{
  ℕ, ◌≡◌, ◌≢◌, Bool, true, false, Option, none, some, List, [], ◌∷◌, ◌==◌, if◌then◌else◌,
}

-- The two definitions of `cmpxchg` in cmpxchg.h. One is InterlockedCompareExchange, which is atomic,
-- on the 32 bits of a pointer. The other, for GNU C, is the instruction of x86 with the prefix that
-- LOCK_PREFIX names, which is none: another processor may write between its read and its write.
pub data Build : Type 0 where
  interlocked : Build
  gnu : Build

-- Where a thread is, with its local variables: in `slist_add` before and after it writes
-- `new_node->next`, in `slist_remove_head` before and after it reads `entry->next`, and inside the
-- `cmpxchg` of either, where it has read `seen` in `head->first`.
pub data Thread : Type 0 where
  idle : Thread
  linking : (new_node entry : ℕ) → Thread
  adding : (new_node old_entry : ℕ) → Thread
  peeking : (entry : ℕ) → Thread
  removing : (old_entry new_entry : ℕ) → Thread
  comparing_add : (new_node old_entry seen : ℕ) → Thread
  comparing_remove : (old_entry new_entry seen : ℕ) → Thread

-- `lock` has the thread in a call of `slist_remove_head`.
-- Who may write to a node: its client, a thread that adds it, or nobody while it is on the list.
pub data Place : Type 0 where
  client : Place
  busy : ℕ → Place
  listed : Place

pub record Sys : Type 0 where
  pub first : ℕ
  pub next : ℕ → ℕ
  pub thread : ℕ → Thread
  pub place : ℕ → Place
  pub lock : Option ℕ

-- What a call returns.
pub data Event : Type 0 where
  silent : Event
  added : (new_node : ℕ) → (was_empty : Bool) → Event
  removed : (entry : ℕ) → Event
  took : (entries : ℕ) → Event

abbrev pub at_thread : ℕ → Thread → Sys → Sys
at_thread t th s = record s { thread = λ u. if u == t then th else s.thread u }

abbrev pub at_place : ℕ → Place → Sys → Sys
at_place n p s = record s { place = λ z. if z == n then p else s.place z }

abbrev pub given_back : Place → Place
given_back client = client
given_back (busy t) = busy t
given_back listed = client

-- The steps of a thread `t`. A client calls `slist_add` for a node that is its own, and the calls
-- that take nodes exclude each other by a lock, as the head of slist.h demands. Where `cmpxchg` is
-- not atomic, it writes in either case: the new value, or the one that it has read.
pub data Step : Build → Sys → Event → Sys → Type 0 where
  call_add :
      {b : Build} {s : Sys} (t n : ℕ)
      → s.thread t ≡ idle
      → n ≢ 0
      → s.place n ≡ client
      → Step b s silent (at_place n (busy t) (at_thread t (linking n s.first) s))
  link :
      {b : Build} {s : Sys} (t n e : ℕ)
      → s.thread t ≡ linking n e
      → Step b s silent
          (at_thread t (adding n e) (record s { next = λ z. if z == n then e else s.next z }))
  cmpxchg_add :
      {s : Sys} (t n e : ℕ)
      → s.thread t ≡ adding n e
      → s.first ≡ e
      → Step interlocked s
          (added n (e == 0))
          (at_place n listed (at_thread t idle (record s { first = n })))
  retry_add :
      {s : Sys} (t n e : ℕ)
      → s.thread t ≡ adding n e
      → s.first ≢ e
      → Step interlocked s silent (at_thread t (linking n s.first) s)
  call_remove :
      {b : Build} {s : Sys} (t : ℕ)
      → s.thread t ≡ idle
      → s.lock ≡ none
      → Step b s silent (at_thread t (peeking s.first) (record s { lock = some t }))
  peek :
      {b : Build} {s : Sys} (t e : ℕ)
      → s.thread t ≡ peeking e
      → e ≢ 0
      → Step b s silent (at_thread t (removing e (s.next e)) s)
  cmpxchg_remove :
      {s : Sys} (t e m : ℕ)
      → s.thread t ≡ removing e m
      → s.first ≡ e
      → Step interlocked s
          (removed e)
          (at_place e client (at_thread t idle (record s { first = m; lock = none })))
  retry_remove :
      {s : Sys} (t e m : ℕ)
      → s.thread t ≡ removing e m
      → s.first ≢ e
      → Step interlocked s silent (at_thread t (peeking s.first) s)
  del_all :
      {b : Build} {s : Sys} (t : ℕ)
      → s.thread t ≡ idle
      → s.lock ≡ none
      → Step b s (took s.first) (record s { first = 0; place = λ z. given_back (s.place z) })
  read_add :
      {s : Sys} (t n e : ℕ)
      → s.thread t ≡ adding n e
      → Step gnu s silent (at_thread t (comparing_add n e s.first) s)
  write_add :
      {s : Sys} (t n e seen : ℕ)
      → s.thread t ≡ comparing_add n e seen
      → seen ≡ e
      → Step gnu s
          (added n (e == 0))
          (at_place n listed (at_thread t idle (record s { first = n })))
  write_back_add :
      {s : Sys} (t n e seen : ℕ)
      → s.thread t ≡ comparing_add n e seen
      → seen ≢ e
      → Step gnu s silent (at_thread t (linking n seen) (record s { first = seen }))
  read_remove :
      {s : Sys} (t e m : ℕ)
      → s.thread t ≡ removing e m
      → Step gnu s silent (at_thread t (comparing_remove e m s.first) s)
  write_remove :
      {s : Sys} (t e m seen : ℕ)
      → s.thread t ≡ comparing_remove e m seen
      → seen ≡ e
      → Step gnu s
          (removed e)
          (at_place e client (at_thread t idle (record s { first = m; lock = none })))
  write_back_remove :
      {s : Sys} (t e m seen : ℕ)
      → s.thread t ≡ comparing_remove e m seen
      → seen ≢ e
      → Step gnu s silent (at_thread t (peeking seen) (record s { first = seen }))

-- `slist_init` of a list whose nodes are all their clients', with no call under way.
unfoldable pub init : (ℕ → ℕ) → Sys
init next = record { first = 0; next = next; thread = λ t. idle; place = λ n. client; lock = none }

-- Steps one after the other, with the events in their order.
pub data Run : Build → Sys → List Event → Sys → Type 0 where
  done : {b : Build} {s : Sys} → Run b s [] s
  step :
      {b : Build} {s s1 s2 : Sys} {ev : Event} {evs : List Event}
      → Step b s ev s1
      → Run b s1 evs s2
      → Run b s (ev ∷ evs) s2
