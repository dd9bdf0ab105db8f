-- ===== src/Store/Steps.antt =====
-- Each step of the store of project3/src/store.cc keeps its invariant.
use advanced_os.Prelude.{
  ℕ, ◌+◌, ◌≡◌, ◌≢◌, ◌<◌, refl, sym, subst, ◌⊎◌, true, false, none, some, List, [], ◌∷◌, ◌++◌,
  length-append, arith, inl, inr,
}
use advanced_os.Prelude.Family.{at, at_self, at_twice, total-at}
use advanced_os.Store.{
  process, finish, idle, requested, answering, completed, CallData, Server, handle_rpc,
}
use advanced_os.Store.Invariant.{listens, listening, has_job, occurs, Fits, Inv}

occurs-append : (i : ℕ) (xs ys : List ℕ) → occurs i (xs ++ ys) ≡ occurs i xs + occurs i ys
unfolding occurs
occurs-append i [] ys = omega arith
occurs-append i (x ∷ xs) ys = ground (arith, occurs-append i xs ys)

-- A change of one instance that keeps whether it listens and whether a job is about it.
module _ (n : ℕ) (s : Server) (v : Inv n s) (i : ℕ) (c : CallData) (bound : i < s.allocated) where
  change-Inv :
      listening c ≡ listening (s.calls i)
      → has_job c.status c.operation ≡ has_job (s.calls i).status (s.calls i).operation
      → Fits c.status c.operation c.deleted c.answers
      → Inv n (record s { calls = at s.calls i c })
  unfolding listening
  change-Inv l h f = record {
    one = omega (arith, v.one, total-at listening s.allocated s.calls i c bound);
    fits = λ j. ground (arith, v.fits j);
    fresh = λ j lt. ground (arith, v.fresh j);
    jobs = λ j. ground (arith, v.jobs j);
  }

  arrive-Inv :
      (s.calls i).operation ≡ requested
      → c ≡ record (s.calls i) { operation = completed }
      → Inv n (record s { calls = at s.calls i c })
  unfolding listening listens has_job Fits
  arrive-Inv o e = ground (arith, change-Inv, v.fits i)

  sent-Inv :
      (s.calls i).operation ≡ answering
      → c ≡ record (s.calls i) { operation = completed }
      → Inv n (record s { calls = at s.calls i c })
  unfolding listening listens has_job Fits
  sent-Inv o e = ground (arith, change-Inv, v.fits i)

module _ (n : ℕ) (s : Server) (v : Inv n s) (i : ℕ) (bound : i < s.allocated) where
  -- A request is seen, and a job about it is queued.
  seen-Inv :
      (c : CallData)
      → (s.calls i).operation ≡ completed
      → (s.calls i).status ≡ process
      → c ≡ record (s.calls i) { operation = idle }
      → Inv n (record s { calls = at s.calls i c; event_queue = s.event_queue ++ i ∷ [] })
  unfolding listening listens has_job Fits occurs
  seen-Inv c o st e = record {
    one = ground (
      arith,
      v.one,
      total-at listening s.allocated s.calls i c bound,
      length-append s.event_queue (i ∷ []),
    );
    fits = λ j. ground (arith, v.fits j, v.fits i);
    fresh = λ j lt. ground (arith, v.fresh j);
    jobs = λ j. ground (arith, v.jobs j, v.jobs i, occurs-append j s.event_queue (i ∷ []));
  }

  deleted-Inv :
      (c : CallData)
      → (s.calls i).operation ≡ completed
      → (s.calls i).status ≡ finish
      → c ≡ record (s.calls i) { operation = idle; deleted = true }
      → Inv n (record s { calls = at s.calls i c })
  unfolding listening listens has_job Fits
  deleted-Inv c o st e = ground (arith, change-Inv n s v i c bound, v.fits i)

-- A round of `HandleRpcs`, by the status of the instance that it gets.
module _ (s : Server) (i : ℕ) where
  abbrev idled : Server
  idled = record s { calls = at s.calls i (record (s.calls i) { operation = idle }) }

  pub rpc-none : (s.calls i).deleted ≡ false → handle_rpc i s ≢ none
  unfolding handle_rpc
  rpc-none d h = ground (arith, at_self s.calls i (record (s.calls i) { operation = idle }))

  rpc-process :
      {s' : Server}
      → (s.calls i).deleted ≡ false
      → (s.calls i).status ≡ process
      → handle_rpc i s ≡ some s'
      → s' ≡ record idled { event_queue = s.event_queue ++ i ∷ [] }
  unfolding handle_rpc
  rpc-process d st h = ground (arith, at_self s.calls i (record (s.calls i) { operation = idle }))

  rpc-finish :
      {s' : Server}
      → (s.calls i).deleted ≡ false
      → (s.calls i).status ≡ finish
      → handle_rpc i s ≡ some s'
      → s' ≡ record s {
        calls = at s.calls i (record (s.calls i) { operation = idle; deleted = true });
      }
  unfolding handle_rpc
  rpc-finish d st h = ground (
    arith,
    at_self s.calls i (record (s.calls i) { operation = idle }),
    at_twice s.calls i (record (s.calls i) { operation = idle })
        (record (s.calls i) { operation = idle; deleted = true }),
  )

module _ (n : ℕ) (s : Server) (v : Inv n s) where
  -- An instance whose tag is on the completion queue has been seen by no one, or has been answered.
  pub completed-Fits :
      (i : ℕ)
      → (s.calls i).operation ≡ completed
      → ((s.calls i).deleted ≡ false) × ((s.calls i).status ≡ process ⊎ (s.calls i).status ≡ finish)
  unfolding Fits
  completed-Fits i o = ground (arith, v.fits i)

module _ (n : ℕ) {s s' : Server} (v : Inv n s) where
  pub arrive-Step :
      (i : ℕ)
      → i < s.allocated
      → (s.calls i).operation ≡ requested
      → s' ≡ record s { calls = at s.calls i (record (s.calls i) { operation = completed }) }
      → Inv n s'
  arrive-Step i lt o e = subst (Inv n) (sym e) (arrive-Inv n s v i _ lt o refl)

  pub sent-Step :
      (i : ℕ)
      → i < s.allocated
      → (s.calls i).operation ≡ answering
      → s' ≡ record s { calls = at s.calls i (record (s.calls i) { operation = completed }) }
      → Inv n s'
  sent-Step i lt o e = subst (Inv n) (sym e) (sent-Inv n s v i _ lt o refl)

  pub rpc-Step :
      (i : ℕ)
      → i < s.allocated
      → (s.calls i).operation ≡ completed
      → handle_rpc i s ≡ some s'
      → Inv n s'
  rpc-Step i lt o h =
      let (alive, status) = completed-Fits n s v i o in
      elim status [
        | inl p ↦ subst (Inv n) (sym (rpc-process s i alive p h)) (seen-Inv n s v i lt _ o p refl)
        | inr f ↦ subst (Inv n) (sym (rpc-finish s i alive f h)) (deleted-Inv n s v i lt _ o f refl)
      ]
