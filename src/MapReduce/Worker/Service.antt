-- ===== src/MapReduce/Worker/Service.antt =====
-- A worker of project4/src/worker.cc always listens for each kind of query, and answers each as if
-- its jobs were run one after another.
use advanced_os.Prelude.{
  ℕ, ◌≡◌, ◌≢◌, ◌≤◌, ◌<◌, ◌⊎◌, refl, sym, ap, subst, ◌∙◌, true, false, Option, none, some, List, [],
  ◌∷◌, ◌==◌, arith, Bool-cases, inl, inr, ==_iff, length,
}
use advanced_os.Prelude.Family.{at, at_self, at_twice, total}
use advanced_os.MapReduce.Text.{FileSystem}
use advanced_os.MapReduce.Worker.{
  RequestStatus, create, process, finish, idle, completed, Kind, mapping, reducing, pinging, Query,
  Reply, Request, Server, Outcome, goes, crashed, dangling, kind_of, blank, allocate, answer,
  proceed_from, proceed, process_request, start, Event, served, Reach,
}
use advanced_os.MapReduce.Worker.Invariant.{
  same_kind, listens, listening, Fits, run_jobs, replies_to, Inv,
}
use advanced_os.MapReduce.Worker.Steps.{arrive-Inv, sent-Inv, deleted-Inv, served-Inv}

module _ (job : Query → FileSystem → Option (Reply × FileSystem)) (fs : FileSystem) where
  proceed-at :
      (t : Server) (i : ℕ)
      → (t.requests i).deleted ≡ false
      → proceed job i t ≡ proceed_from job i (t.requests i).status t
  unfolding proceed
  proceed-at t i d = rw d refl

  -- the invariant behind a round, if the worker goes on
  abbrev Holds : List (ℕ × Query) → Outcome → Type 0
  Holds l (goes s) = Inv job fs l s
  Holds l crashed = Unit
  Holds l dangling = Unit

  module _ (l : List (ℕ × Query)) (s : Server) (v : Inv job fs l s) (i : ℕ)
      (bound : i < s.allocated) (o : (s.requests i).operation ≡ completed) where
    completed-Fits :
        ((s.requests i).deleted ≡ false)
        × ((s.requests i).status ≡ process ⊎ (s.requests i).status ≡ finish)
    unfolding Fits
    completed-Fits = ground (arith, v.fits i)

    abbrev f' : ℕ → Request
    f' = at s.requests i (record (s.requests i) { operation = idle })

    found : f' i ≡ record (s.requests i) { operation = idle }
    found = at_self s.requests i (record (s.requests i) { operation = idle })

    round-process :
        (s.requests i).deleted ≡ false
        → (s.requests i).status ≡ process
        → process_request job i s
          ≡ answer i
              (job (s.requests i).query s.files)
              (allocate (kind_of (s.requests i).query) (record s { requests = f' }))
    unfolding process_request proceed_from
    round-process d st =
        let t : Server = record s { requests = f' } in
        proceed-at t i (ap (λ (r : Request). r.deleted) found ∙ d)
        ∙ ap (λ x. proceed_from job i x t) (ap (λ (r : Request). r.status) found ∙ st)
        ∙ ap (λ (r : Request). answer i (job r.query s.files) (allocate (kind_of r.query) t)) found

    round-finish :
        (s.requests i).deleted ≡ false
        → (s.requests i).status ≡ finish
        → process_request job i s
          ≡ goes (record s {
            requests = at s.requests i (record (s.requests i) { operation = idle; deleted = true });
          })
    unfolding process_request proceed_from
    round-finish d st =
        let t : Server = record s { requests = f' } in
        proceed-at t i (ap (λ (r : Request). r.deleted) found ∙ d)
        ∙ ap (λ x. proceed_from job i x t) (ap (λ (r : Request). r.status) found ∙ st)
        ∙ ap (λ (r : Request). goes (record s { requests = at f' i (record r { deleted = true }) }))
            found
        ∙ ap (λ g. goes (record s { requests = g }))
            (at_twice s.requests i (record (s.requests i) { operation = idle })
              (record (s.requests i) { operation = idle; deleted = true }))

    answered-Holds :
        (r : Option (Reply × FileSystem))
        → (s.requests i).status ≡ process
        → job (s.requests i).query s.files ≡ r
        → Holds
            ((i, (s.requests i).query) ∷ l)
            (answer i r (allocate (kind_of (s.requests i).query) (record s { requests = f' })))
    unfolding answer allocate
    answered-Holds none st e = tt
    answered-Holds (some (reply, files)) st e =
        let apart : (s.allocated == i) ≡ false = ground arith in
        rw ((==_iff i i).1 refl, apart) (served-Inv job fs l s v i bound reply files o st e)

    pub round-Holds :
        Holds (served job i (s.requests i).status (s.requests i).query l) (process_request job i s)
    round-Holds =
        let (alive, status) = completed-Fits in
        elim status [
          | inl p ↦
              rw (p, round-process alive p)
                (answered-Holds (job (s.requests i).query s.files) p refl)
          | inr f ↦ rw (f, round-finish alive f) (deleted-Inv job fs l s v i bound o f)
        ]

  Event-Inv :
      {l : List (ℕ × Query)} {s s' : Server} → Event job s s' → Inv job fs l s → Inv job fs l s'
  Event-Inv {l} {s} (Event.arrive i q lt o k e) v =
      subst (Inv job fs l) (sym e) (arrive-Inv job fs l s v i lt q o k)
  Event-Inv {l} {s} (Event.sent i lt o e) v =
      subst (Inv job fs l) (sym e) (sent-Inv job fs l s v i lt o)

  start-Inv : Inv job fs [] (start job fs)
  unfolding start allocate total listening listens Fits run_jobs replies_to kind_of blank same_kind
  start-Inv = record {
    one = start_one;
    fits = λ j. ground arith;
    fresh = λ j lt. ground arith;
    results = [];
    ran = refl;
    given = λ j. ground arith;
  }
    where
      start_one : (k : Kind) → total (listening k) 3 (start job fs).requests ≡ 1
      start_one mapping = refl
      start_one reducing = refl
      start_one pinging = refl

  pub Reach-Inv : {l : List (ℕ × Query)} {s : Server} → Reach job fs l s → Inv job fs l s
  Reach-Inv Reach.begin = start-Inv
  Reach-Inv (Reach.event r e) = Event-Inv e (Reach-Inv r)
  Reach-Inv (Reach.round {l = l} {s = s} i r lt o h) =
      subst (Holds (served job i (s.requests i).status (s.requests i).query l)) h
        (round-Holds l s (Reach-Inv r) i lt o)

  -- In every state that is reached, exactly one request of each kind waits for a query or has a query
  -- that no loop has seen.
  pub one_request_listens :
      (l : List (ℕ × Query)) (s : Server) (k : Kind)
      → Reach job fs l s
      → total (listening k) s.allocated s.requests ≡ 1
  one_request_listens l s k r = (Reach-Inv r).one k

  answer-dangling : (i : ℕ) (r : Option (Reply × FileSystem)) (s : Server) → answer i r s ≢ dangling
  unfolding answer
  answer-dangling i none s e = absurd (ground arith)
  answer-dangling i (some r) s e = absurd (ground arith)

  proceed_from-dangling :
      (i : ℕ) (st : RequestStatus) (s : Server) → proceed_from job i st s ≢ dangling
  unfolding proceed_from
  proceed_from-dangling i create s e = absurd (ground arith)
  proceed_from-dangling i process s e = answer-dangling i _ _ e
  proceed_from-dangling i finish s e = absurd (ground arith)

  round-dangling :
      (s : Server) (i : ℕ) → (s.requests i).deleted ≡ false → process_request job i s ≢ dangling
  unfolding process_request
  round-dangling s i d e =
      let t : Server = record s {
        requests = at s.requests i (record (s.requests i) { operation = idle });
      } in
      proceed_from-dangling i (t.requests i).status t
        (sym (proceed-at t i (rw ((==_iff i i).1 refl) d)) ∙ e)

  -- In every state that is reached, the files and the replies of each request are those of the served
  -- queries' jobs run one after another, no request has more than one reply, and no tag is that of a
  -- deleted request.
  pub jobs_in_order :
      (l : List (ℕ × Query)) (s : Server) (i : ℕ)
      → Reach job fs l s
      → (results : List (ℕ × Reply)) × (run_jobs job fs l ≡ some (results, s.files))
        × ((s.requests i).replies ≡ replies_to job fs i results)
        × (length (s.requests i).replies ≤ 1)
        × (((s.requests i).operation ≢ completed) ⊎ (process_request job i s ≢ dangling))
  unfolding Fits
  jobs_in_order l s i r =
      let v = Reach-Inv r in
      (
        v.results,
        v.ran,
        v.given i,
        ground (arith, v.fits i),
        elim (Bool-cases (s.requests i).deleted) [
          | inl gone ↦ inl (λ c. ground (arith, v.fits i))
          | inr there ↦ inr (round-dangling s i there)
        ],
      )
