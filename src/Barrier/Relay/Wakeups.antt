-- ===== src/Barrier/Relay/Wakeups.antt =====
-- The steps of the tree barrier of project2/mpi/gtmpi2.c that lead down from the root keep its
-- invariant.
use advanced_os.Prelude.{ℕ, ◌+◌, ◌-◌, ◌*◌, ◌/◌, ◌≡◌, ◌<◌, arith}
use advanced_os.Prelude.Family.{at}
use advanced_os.Barrier.Relay.{
  outside, awaiting, waking_first, waking_second, Process, Pending, first_child, send, take, wake,
}
use advanced_os.Barrier.Relay.Counts.{here_of, counted_still}
use advanced_os.Barrier.Relay.Invariant.{stage, finished, gathers, reports, Good}

module _ (n p : ℕ) (m : Pending) (f : ℕ → Process) (g : Good n m f) (lt : p < n) where
  pub woken-Good :
      (f p).place ≡ awaiting
      → 0 < m ((p - 1) / 2) p
      → Good n
          (take m ((p - 1) / 2) p)
          (at f p (record { place = waking_first; entered = (f p).entered }))
  unfolding take stage finished
  woken-Good e pos = record {
    begun = λ i h. ground (arith, g.begun i);
    root = ground (arith, g.root);
    going = λ i. ground (arith, g.going i);
    arrivals = λ k posk ltk. ground (arith, g.arrivals k);
    counted =
        counted_still n m (take m ((p - 1) / 2) p) f
          (at f p (record { place = waking_first; entered = (f p).entered })) g
          (λ i k ltk. ground arith) (λ i. ground arith);
    wakeups = λ j posj ltj. ground (arith, g.wakeups j, g.begun p);
    quiet = λ r i h. ground (arith, g.quiet r i);
  }

  pub first-Good :
      (f p).place ≡ waking_first
      → Good n
          (wake n m p (p * 2 + 1))
          (at f p (record { place = waking_second; entered = (f p).entered }))
  unfolding send stage finished
  first-Good e = record {
    begun = λ i h. ground (arith, g.begun i);
    root = ground (arith, g.root);
    going = λ i. ground (arith, g.going i);
    arrivals = λ k posk ltk. ground (arith, g.arrivals k);
    counted =
        counted_still n m (wake n m p (p * 2 + 1)) f
          (at f p (record { place = waking_second; entered = (f p).entered })) g
          (λ i k ltk. ground arith) (λ i. ground arith);
    wakeups = λ j posj ltj. ground (arith, g.wakeups j, g.begun p);
    quiet = λ r i h. ground (arith, g.quiet r i);
  }

  pub second-Good :
      (f p).place ≡ waking_second
      → Good n
          (wake n m p (p * 2 + 2))
          (at f p (record { place = outside; entered = (f p).entered }))
  unfolding send stage finished
  second-Good e = record {
    begun = λ i h. ground (arith, g.begun i);
    root = ground (arith, g.root);
    going = λ i. ground (arith, g.going i);
    arrivals = λ k posk ltk. ground (arith, g.arrivals k);
    counted =
        counted_still n m (wake n m p (p * 2 + 2)) f
          (at f p (record { place = outside; entered = (f p).entered })) g
          (λ i k ltk.
            here_of n (wake n m p (p * 2 + 2))
              (at f p (record { place = outside; entered = (f p).entered })) i k
              (reports (f (first_child i + k))) (m (first_child i + k) i) (gathers (f i))
              (ground arith) (ground arith) (ground arith))
          (λ i. ground arith);
    wakeups = λ j posj ltj. ground (arith, g.wakeups j, g.begun p);
    quiet = λ r i h. ground (arith, g.quiet r i);
  }
