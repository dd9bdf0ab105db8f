-- ===== src/Store/Safety.antt =====
-- The store of project3/src/store.cc always listens, and answers each request once.
use advanced_os.Prelude.{
  ℕ, ◌+◌, ◌≡◌, ◌≢◌, ◌≤◌, ◌⊎◌, refl, sym, subst, none, length, arith, Bool-cases, inl, inr,
}
use advanced_os.Prelude.Family.{total, total-eq-zero}
use advanced_os.Store.{completed, CallData, waiting, Server, handle_rpc, start, Step, Reach}
use advanced_os.Store.Invariant.{listens, listening, has_job, holds, works_on, occurs, Fits, Inv}
use advanced_os.Store.Steps.{arrive-Step, sent-Step, rpc-Step, rpc-none}
use advanced_os.Store.Threads.{thread_loop-Inv}

module _ (n : ℕ) where
  Step-Inv : {s s' : Server} → Step n s s' → Inv n s → Inv n s'
  Step-Inv (Step.arrive i lt o e) v = arrive-Step n v i lt o e
  Step-Inv (Step.sent i lt o e) v = sent-Step n v i lt o e
  Step-Inv (Step.rpc i lt o h) v = rpc-Step n v i lt o h
  Step-Inv {s} (Step.thread w lt e) v = subst (Inv n) (sym e) (thread_loop-Inv n s v w lt)

  start-Inv : Inv n start
  unfolding start listening listens has_job holds works_on occurs Fits total
  start-Inv = record {
    one = ground (arith, total-eq-zero holds n (λ _. waiting) (λ i lt. refl));
    fits = λ j. ground arith;
    fresh = λ j lt. ground arith;
    jobs = λ j. ground (arith, total-eq-zero (works_on j) n (λ _. waiting) (λ i lt. refl));
  }

  Reach-Inv : {s : Server} → Reach n s → Inv n s
  Reach-Inv Reach.begin = start-Inv
  Reach-Inv (Reach.next r st) = Step-Inv st (Reach-Inv r)

  -- In every state that is reached, exactly one instance listens for a client, or has a request that
  -- HandleRpcs has not yet seen, is queued, or is held by a thread that has not allocated the next
  -- instance.
  pub one_listener :
      (s : Server)
      → Reach n s
      → total listening s.allocated s.calls + length s.event_queue + total holds n s.threads ≡ 1
  one_listener s r = (Reach-Inv r).one

  answers-le : (s : CallData) → Fits s.status s.operation s.deleted s.answers → s.answers ≤ 1
  unfolding Fits
  answers-le s f = ground arith

  -- In every state that is reached, an instance whose tag is on the completion queue has not been
  -- deleted, so that HandleRpcs can go on with it, and no instance has been answered more than once.
  pub answered_once :
      (s : Server) (i : ℕ)
      → Reach n s
      → (((s.calls i).operation ≢ completed) ⊎ (handle_rpc i s ≢ none)) × ((s.calls i).answers ≤ 1)
  unfolding Fits
  answered_once s i r =
      let f = (Reach-Inv r).fits i in
      (
        elim (Bool-cases (s.calls i).deleted) [
          | inl gone ↦ inl (λ c. ground (arith, f))
          | inr there ↦ inr (rpc-none s i there)
        ],
        answers-le (s.calls i) f,
      )
