-- ===== src/Slist/Alone.antt =====
-- A thread that nobody disturbs gets its node onto the list.
use struct.Base.{ℕ, suc, ◌≡◌, ◌≢◌, refl, ◌∙◌, arith, Bool-cases, inl, inr, ◌⊎◌, ◌==◌}
use struct.Slist.{
  interlocked, Build, idle, linking, adding, Sys, Event, Step, call_add, link, cmpxchg_add,
  retry_add, call_remove, peek, cmpxchg_remove, retry_remove, del_all, read_add, write_add,
  write_back_add, read_remove, write_remove, write_back_remove,
}

-- The thread that takes a step.
abbrev pub stepper : {b : Build} {s s' : Sys} {ev : Event} → Step b s ev s' → ℕ
stepper (call_add t n a b c) = t
stepper (link t n e a) = t
stepper (cmpxchg_add t n e a b) = t
stepper (retry_add t n e a b) = t
stepper (call_remove t a b) = t
stepper (peek t e a b) = t
stepper (cmpxchg_remove t e m a b) = t
stepper (retry_remove t e m a b) = t
stepper (del_all t a b) = t
stepper (read_add t n e a) = t
stepper (write_add t n e x a b) = t
stepper (write_back_add t n e x a b) = t
stepper (read_remove t e m a) = t
stepper (write_remove t e m x a b) = t
stepper (write_back_remove t e m x a b) = t

-- If only the thread `t` takes steps, then whichever it takes, and it can take one as long as its
-- call has not returned, it has returned after at most so many, with the node `n` on top.
pub data Returns (t n : ℕ) : ℕ → Sys → Type 0 where
  returned : {k : ℕ} {s : Sys} → s.first ≡ n → s.thread t ≡ idle → Returns t n k s
  goes_on :
      {k : ℕ} {s : Sys}
      → ((ev : Event) × (s' : Sys) × (st : Step interlocked s ev s') × (stepper st ≡ t))
      → ((ev : Event) (s' : Sys) (st : Step interlocked s ev s')
          → stepper st ≡ t
          → Returns t n k s')
      → Returns t n (suc k) s

linking_goes :
    {s s' : Sys} {ev : Event} (t n e : ℕ)
    → s.thread t ≡ linking n e
    → (st : Step interlocked s ev s') → stepper st ≡ t
    → (s'.thread t ≡ adding n e) × (s'.first ≡ s.first)
linking_goes t n e th (call_add t' n' a ne c) same = absurd (cc (th, a, same))
linking_goes t n e th (link t' n' e' a) same =
    let en : n' ≡ n = cc (th, a, same) in
    let ee : e' ≡ e = cc (th, a, same) in (ground (arith, same, en, ee), refl)
linking_goes t n e th (cmpxchg_add t' n' e' a b) same = absurd (cc (th, a, same))
linking_goes t n e th (retry_add t' n' e' a b) same = absurd (cc (th, a, same))
linking_goes t n e th (call_remove t' a b) same = absurd (cc (th, a, same))
linking_goes t n e th (peek t' e' a b) same = absurd (cc (th, a, same))
linking_goes t n e th (cmpxchg_remove t' e' m a b) same = absurd (cc (th, a, same))
linking_goes t n e th (retry_remove t' e' m a b) same = absurd (cc (th, a, same))
linking_goes t n e th (del_all t' a b) same = absurd (cc (th, a, same))

adding_goes :
    {s s' : Sys} {ev : Event} (t n e : ℕ)
    → s.thread t ≡ adding n e
    → (st : Step interlocked s ev s') → stepper st ≡ t
    → ((s'.first ≡ n) × (s'.thread t ≡ idle))
      ⊎ ((s.first ≢ e) × (s'.thread t ≡ linking n s.first) × (s'.first ≡ s.first))
adding_goes t n e th (call_add t' n' a ne c) same = absurd (cc (th, a, same))
adding_goes t n e th (link t' n' e' a) same = absurd (cc (th, a, same))
adding_goes t n e th (cmpxchg_add t' n' e' a b) same = inl (cc (th, a, same), ground (arith, same))
adding_goes t n e th (retry_add t' n' e' a b) same =
    let en : n' ≡ n = cc (th, a, same) in
    inr (λ z. b (cc (th, a, same, z)), ground (arith, same, en), refl)
adding_goes t n e th (call_remove t' a b) same = absurd (cc (th, a, same))
adding_goes t n e th (peek t' e' a b) same = absurd (cc (th, a, same))
adding_goes t n e th (cmpxchg_remove t' e' m a b) same = absurd (cc (th, a, same))
adding_goes t n e th (retry_remove t' e' m a b) same = absurd (cc (th, a, same))
adding_goes t n e th (del_all t' a b) same = absurd (cc (th, a, same))

-- The steps that a thread in `slist_add` can take.
module _ (t n : ℕ) where
  top_adding :
      (k : ℕ) (s : Sys) (e : ℕ) → s.thread t ≡ adding n e → s.first ≡ e → Returns t n (suc k) s
  top_adding k s e th f =
      goes_on {k = k} (_, _, cmpxchg_add t n e th f, refl)
        (λ ev s' st same.
          elim (adding_goes {s = s} {s' = s'} {ev = ev} t n e th st same)
            as (λ x. Returns t n k s') [
              | inl (top, out) ↦ returned top out
              | inr (ne, _, _) ↦ absurd (ne f)
            ])

  top_linking :
      (k : ℕ) (s : Sys) (e : ℕ)
      → s.thread t ≡ linking n e
      → s.first ≡ e
      → Returns t n (suc (suc k)) s
  top_linking k s e th f =
      goes_on (_, _, link t n e th, refl)
        (λ ev s' st same.
          let (th', f') = linking_goes t n e th st same in top_adding k s' e th' (f' ∙ f))

  any_adding :
      (k : ℕ) (s : Sys) (e : ℕ) → s.thread t ≡ adding n e → Returns t n (suc (suc (suc k))) s
  any_adding k s e th =
      goes_on {k = suc (suc k)}
        (elim (Bool-cases (s.first == e)) [
          | inl f ↦ (_, _, cmpxchg_add t n e th (ground (arith, f)), refl)
          | inr f ↦ (_, _, retry_add t n e th (λ z. ground (arith, z, f)), refl)
        ])
        (λ ev s' st same.
          elim (adding_goes {s = s} {s' = s'} {ev = ev} t n e th st same)
            as (λ x. Returns t n (suc (suc k)) s') [
              | inl (top, out) ↦ returned top out
              | inr (_, th', f') ↦ top_linking k s' s.first th' f'
            ])

-- Where pointers have 32 bits and cmpxchg is InterlockedCompareExchange: once a thread is in
-- slist_add, before or after it writes new_node->next, and whatever the others have done before, it
-- can take a step until it has returned, and if no other thread takes one it has returned after at
-- most four, whichever they are, with its node on top of the list.
pub add-Alone :
    (s : Sys) (t n e : ℕ) → (s.thread t ≡ linking n e) ⊎ (s.thread t ≡ adding n e) → Returns t n 4 s
add-Alone s t n e (inl th) =
    goes_on (_, _, link t n e th, refl)
      (λ ev s' st same. any_adding t n 0 s' e (linking_goes t n e th st same).0)
add-Alone s t n e (inr th) = any_adding t n 1 s e th
