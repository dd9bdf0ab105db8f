-- ===== src/Barrier/Dissemination/Counts.antt =====
-- The messages of the dissemination barrier stay balanced with each step of a process.
use advanced_os.Prelude.{ℕ, ◌+◌, ◌-◌, ◌<◌, ◌≡◌, refl, ap, arith}
use advanced_os.Prelude.Family.{at}
use advanced_os.Barrier.Dissemination.{
  num_rounds, send_to, recv_from, Place, outside, receiving, Process, Pending,
}
use advanced_os.Barrier.Dissemination.Messages.{
  hit, hit_own, Balanced, put, Balanced-send, Balanced-receive,
}
use advanced_os.Barrier.Dissemination.Invariant.{
  sent, received, sent_by, received_by, sent_counts, received_counts, one_more, as_many,
  Balanced-same,
}

abbrev pub process : Place → ℕ → Process
process place entered = record { place = place; entered = entered }

module _ (n : ℕ) (m : Pending) (f : ℕ → Process) (p : ℕ) (lt : p < n)
    (balanced : Balanced n m (sent_counts f) (received_counts f)) where
  was_sent :
      (place : Place) → (f p).place ≡ place → (k : ℕ) → sent_by (f p) k ≡ sent place (f p).entered k
  was_sent place e k = ap (λ x. sent x (f p).entered k) e

  was_received :
      (place : Place)
      → (f p).place ≡ place
      → (k : ℕ) → received_by (f p) k ≡ received place (f p).entered k
  was_received place e k = ap (λ x. received x (f p).entered k) e

  -- A call begins with the message of round 0.
  pub entering :
      (f p).place ≡ outside
      → 0 < num_rounds n
      → let g = at f p (process (receiving 0) ((f p).entered + 1)) in
        Balanced n
          (put m p (send_to n p 0) (m p (send_to n p 0) + 1))
          (sent_counts g)
          (received_counts g)
  unfolding sent received
  entering out some_rounds =
      let t = process (receiving 0) ((f p).entered + 1) in
      Balanced-same n (put m p (send_to n p 0) (m p (send_to n p 0) + 1)) (sent_counts (at f p t))
        (received_counts f) (sent_counts (at f p t)) (received_counts (at f p t)) (λ q k ltk. refl)
        (as_many n received_by f p t (λ k ltk. ground (arith, was_received outside out k)))
        (Balanced-send n m (sent_counts f) (received_counts f) balanced (sent_counts (at f p t)) p 0
          lt some_rounds
          (one_more n sent_by f p t 0
            (λ k ltk. ground (arith, was_sent outside out k, hit_own p k 0))))

  module _ (r : ℕ) (at_r : (f p).place ≡ receiving r) (ltr : r < num_rounds n)
      (begun : 0 < (f p).entered) (some_left : 0 < m (recv_from n p r) p) where
    abbrev rest : Pending
    rest = put m (recv_from n p r) p (m (recv_from n p r) p - 1)

    taken :
        (t : Process)
        → ((k : ℕ) → k < num_rounds n → received_by t k ≡ received_by (f p) k + hit p p k r)
        → Balanced n rest (sent_counts f) (received_counts (at f p t))
    taken t h =
        Balanced-receive n m (sent_counts f) (received_counts f) balanced
          (received_counts (at f p t)) p r lt ltr some_left (one_more n received_by f p t r h)

    -- A message is received and that of the next round sent.
    pub going_on :
        r + 1 < num_rounds n
        → let g = at f p (process (receiving (r + 1)) (f p).entered) in
          Balanced n
            (put rest p (send_to n p (r + 1)) (rest p (send_to n p (r + 1)) + 1))
            (sent_counts g)
            (received_counts g)
    unfolding sent received
    going_on more =
        let t = process (receiving (r + 1)) (f p).entered in
        Balanced-send n rest (sent_counts f) (received_counts (at f p t))
          (taken t
            (λ k ltk. ground (arith, was_received (receiving r) at_r k, hit_own p k r, begun)))
          (sent_counts (at f p t)) p (r + 1) lt more
          (one_more n sent_by f p t (r + 1)
            (λ k ltk. ground (arith, was_sent (receiving r) at_r k, hit_own p k (r + 1), begun)))

    -- The last message is received.
    pub leaving :
        r + 1 ≡ num_rounds n
        → let g = at f p (process outside (f p).entered) in
          Balanced n rest (sent_counts g) (received_counts g)
    unfolding sent received
    leaving over =
        let t = process outside (f p).entered in
        Balanced-same n rest (sent_counts f) (received_counts (at f p t)) (sent_counts (at f p t))
          (received_counts (at f p t))
          (as_many n sent_by f p t (λ k ltk. ground (arith, was_sent (receiving r) at_r k)))
          (λ q k ltk. refl)
          (taken t
            (λ k ltk. ground (arith, was_received (receiving r) at_r k, hit_own p k r, begun)))
