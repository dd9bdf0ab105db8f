-- ===== src/Store/Threads.antt =====
-- Each step of a thread of the pool of project3/src/threadpool.h keeps the store's invariant.
use advanced_os.Prelude.{ℕ, ◌≡◌, ◌<◌, refl, List, [], ◌∷◌, arith, dec_lt}
use advanced_os.Prelude.Family.{total, total-at, total-at_of_le}
use advanced_os.Store.{
  process, requested, CallData, Worker, waiting, job, bidding, Server, new_call_data, finish_job,
  thread_step, thread_loop,
}
use advanced_os.Store.Invariant.{listens, listening, has_job, holds, works_on, occurs, Fits, Inv}

module _ (n : ℕ) (s : Server) (v : Inv n s) (w : ℕ) (bound : w < n) where
  take-Inv :
      (i : ℕ) (queue : List ℕ)
      → s.threads w ≡ waiting
      → s.event_queue ≡ i ∷ queue
      → Inv n (thread_step w waiting (i ∷ queue) s)
  unfolding thread_step holds works_on occurs
  take-Inv i queue place e = record {
    one = ground (arith, v.one, total-at holds n s.threads w (job i) bound);
    fits = v.fits;
    fresh = v.fresh;
    jobs = λ j. ground (arith, v.jobs j, total-at (works_on j) n s.threads w (job i) bound);
  }

  spawn-Inv : (i : ℕ) (queue : List ℕ) → s.threads w ≡ job i → Inv n (thread_step w (job i) queue s)
  unfolding thread_step holds works_on listening listens has_job Fits total
  spawn-Inv i queue place =
      let c : CallData = record new_call_data { status = process; operation = requested } in
      record {
        one = ground (
          arith,
          v.one,
          total-at holds n s.threads w (bidding i) bound,
          total-at_of_le listening s.allocated s.calls s.allocated c,
        );
        fits = λ j. ground (arith, v.fits j);
        fresh = λ j lt. ground (arith, v.fresh j);
        jobs = λ j. ground (
          arith,
          v.jobs j,
          total-at (works_on j) n s.threads w (bidding i) bound,
          v.fresh s.allocated,
        );
      }

  -- The instance that a job is about waits for nothing.
  worked_on :
      (i : ℕ) → s.threads w ≡ bidding i → has_job (s.calls i).status (s.calls i).operation ≡ 1
  unfolding works_on has_job
  worked_on i place = ground (arith, v.jobs i, total-at (works_on i) n s.threads w waiting bound)

  allocated_of : (i : ℕ) → s.threads w ≡ bidding i → i < s.allocated
  unfolding has_job
  allocated_of i place = elim (dec_lt i s.allocated) [
    | yes h ↦ h
    | no h ↦ absurd (ground (arith, worked_on i place, v.fresh i))
  ]

  finish-Inv :
      (i : ℕ) (queue : List ℕ) → s.threads w ≡ bidding i → Inv n (thread_step w (bidding i) queue s)
  unfolding thread_step holds works_on listening listens has_job Fits
  finish-Inv i queue place =
      let c : CallData = finish_job i (s.calls i) in
      record {
        one = ground (
          arith,
          v.one,
          total-at holds n s.threads w waiting bound,
          worked_on i place,
          total-at listening s.allocated s.calls i c (allocated_of i place),
        );
        fits = λ j. ground (arith, v.fits j, worked_on i place);
        fresh = λ j lt. ground (arith, v.fresh j, allocated_of i place);
        jobs = λ j.
            ground (
              arith,
              v.jobs j,
              total-at (works_on j) n s.threads w waiting bound,
              worked_on i place,
            );
      }

  pub thread_loop-Inv : Inv n (thread_loop w s)
  unfolding thread_loop
  thread_loop-Inv = by_place (s.threads w) s.event_queue refl refl
    where
      by_place :
          (t : Worker) (queue : List ℕ)
          → s.threads w ≡ t
          → s.event_queue ≡ queue
          → Inv n (thread_step w t queue s)
      by_place waiting [] p e = unfold thread_step in v
      by_place waiting (i ∷ queue) p e = take-Inv i queue p e
      by_place (job i) queue p e = spawn-Inv i queue p
      by_place (bidding i) queue p e = finish-Inv i queue p
