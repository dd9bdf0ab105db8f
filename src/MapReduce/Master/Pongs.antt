-- ===== src/MapReduce/Master/Pongs.antt =====
-- How many answers a round of monitor of project4/src/master.cc reads.
use advanced_os.Prelude.{
  ℕ, ◌+◌, ◌≡◌, ◌≤◌, inl, inr, Option, some, List, [], ◌∷◌, length, ltb, if◌then◌else◌, arith,
  Bool-cases, Option-cases,
}
use advanced_os.MapReduce.Text.{Text}
use advanced_os.MapReduce.Master.State.{Master}
use advanced_os.MapReduce.Master.Failures.{Pong, receive_pongs, handle_worker_failure}

-- A failure leaves the number of workers as it is, or takes one off.
handle_worker_failure-workers :
    (u : Text) (m : Master) {m' : Master}
    → handle_worker_failure u m ≡ some m'
    → (m'.num_workers ≤ m.num_workers) × (m.num_workers ≤ m'.num_workers + 1)
unfolding handle_worker_failure
handle_worker_failure-workers u m h = ground arith

abbrev after_pong : Pong → Master → Option Master
after_pong p m = if p.error_msg then handle_worker_failure p.worker_ip m else some m

after_pong-workers :
    (p : Pong) (m : Master) {n : Master}
    → after_pong p m ≡ some n
    → (n.num_workers ≤ m.num_workers) × (m.num_workers ≤ n.num_workers + 1)
after_pong-workers p m {n} h = ground (
  arith,
  λ (e : handle_worker_failure p.worker_ip m ≡ some n).
      handle_worker_failure-workers p.worker_ip m e,
)

-- The same from within the loop, behind `i` answers.
pongs_left :
    (i : ℕ) (pongs : List Pong) (m m' : Master) (rest : List Pong)
    → receive_pongs i pongs m ≡ some (m', rest)
    → m.num_workers ≤ i + length pongs
    → i ≤ m.num_workers + 1
    → (m'.num_workers + length rest ≤ i + length pongs)
      × (i + length pongs ≤ m'.num_workers + length rest + 1)
unfolding receive_pongs
pongs_left i [] m m' rest h a b = ground arith
pongs_left i (p ∷ ps) m m' rest h a b = elim (Bool-cases (ltb i m.num_workers)) [
  | inr stop ↦ ground arith
  | inl go ↦ elim (Option-cases (after_pong p m)) [
    | inl crash ↦ absurd (ground (arith, crash))
    | inr (n, e) ↦ ground (
      arith,
      e,
      after_pong-workers p m e,
      λ (s : receive_pongs (i + 1) ps n ≡ some (m', rest)) (x : n.num_workers ≤ i + 1 + length ps)
            (y : i + 1 ≤ n.num_workers + 1).
          pongs_left (i + 1) ps n m' rest s x y,
    )
  ]
]

-- With one answer to come for each worker, a round of pings that ends leaves as many answers unread as
-- it has dropped workers, or one less.
pub receive_pongs-unread :
    (pongs : List Pong) (m m' : Master) (rest : List Pong)
    → length pongs ≡ m.num_workers
    → receive_pongs 0 pongs m ≡ some (m', rest)
    → (m'.num_workers + length rest ≤ m.num_workers)
      × (m.num_workers ≤ m'.num_workers + length rest + 1)
receive_pongs-unread pongs m m' rest one h =
    ground (arith, pongs_left 0 pongs m m' rest h (omega arith) (omega arith))
