-- ===== src/MapReduce/Worker/Steps.antt =====
-- Each step of a worker of project4/src/worker.cc keeps its invariant.
use advanced_os.Prelude.{
  ℕ, suc, ◌+◌, ◌≡◌, ◌<◌, refl, ap, true, false, Option, some, List, [], ◌∷◌, ◌++◌, ◌==◌,
  if◌then◌else◌, arith,
}
use advanced_os.Prelude.Family.{at, total, total-at, total-at_of_le}
use advanced_os.MapReduce.Text.{FileSystem}
use advanced_os.MapReduce.Worker.{
  process, finish, idle, requested, answering, completed, Kind, mapping, reducing, pinging, Query,
  Reply, Request, Server, kind_of, blank, new_request, listen,
}
use advanced_os.MapReduce.Worker.Invariant.{
  same_kind, listens, listening, Fits, run_jobs, replies_to, Inv,
}

kind_of-blank : (k : Kind) → kind_of (blank k) ≡ k
unfolding kind_of blank
kind_of-blank mapping = refl
kind_of-blank reducing = refl
kind_of-blank pinging = refl

-- A new request listens for queries of its kind.
listening-new :
    (k k' : Kind) → listening k (listen (new_request k')) ≡ (if same_kind k' k then 1 else 0)
unfolding listening listens
listening-new k k' = ap (λ x. if same_kind x k then 1 else 0) (kind_of-blank k')

total-suc : (w : Request → ℕ) (n : ℕ) (f : ℕ → Request) → total w (suc n) f ≡ total w n f + w (f n)
unfolding total
total-suc w n f = refl

module _ (job : Query → FileSystem → Option (Reply × FileSystem)) (fs : FileSystem) where
  module _ (l : List (ℕ × Query)) (s : Server) (v : Inv job fs l s) (i : ℕ)
      (bound : i < s.allocated) where
    -- A change of one request that keeps what it listens for.
    change-Inv :
        (c : Request)
        → ((k : Kind) → listening k c ≡ listening k (s.requests i))
        → Fits c.status c.operation c.deleted c.replies
        → c.replies ≡ (s.requests i).replies
        → Inv job fs l (record s { requests = at s.requests i c })
    change-Inv c w f r = record {
      one =
          λ k. omega (arith, v.one k, w k, total-at (listening k) s.allocated s.requests i c bound);
      fits = λ j. ground (arith, v.fits j);
      fresh = λ j lt. ground (arith, v.fresh j);
      results = v.results;
      ran = v.ran;
      given = λ j. ground (arith, v.given j);
    }

    pub arrive-Inv :
        (q : Query)
        → (s.requests i).operation ≡ requested
        → kind_of q ≡ kind_of (s.requests i).query
        → Inv job fs l (record s {
          requests = at s.requests i (record (s.requests i) { operation = completed; query = q });
        })
    unfolding listening listens Fits
    arrive-Inv q o same =
        change-Inv _ (λ k. ground (arith, v.fits i)) (ground (arith, v.fits i)) refl

    pub sent-Inv :
        (s.requests i).operation ≡ answering
        → Inv job fs l (record s {
          requests = at s.requests i (record (s.requests i) { operation = completed });
        })
    unfolding listening listens Fits
    sent-Inv o = change-Inv _ (λ k. ground (arith, v.fits i)) (ground (arith, v.fits i)) refl

    pub deleted-Inv :
        (s.requests i).operation ≡ completed
        → (s.requests i).status ≡ finish
        → Inv job fs l (record s {
          requests = at s.requests i (record (s.requests i) { operation = idle; deleted = true });
        })
    unfolding listening listens Fits
    deleted-Inv o st = change-Inv _ (λ k. ground (arith, v.fits i)) (ground (arith, v.fits i)) refl

    -- the requests behind a job with this reply
    abbrev answered : Reply → ℕ → Request
    answered reply =
        at
          (at (at s.requests i (record (s.requests i) { operation = idle })) s.allocated
            (listen (new_request (kind_of (s.requests i).query))))
          i
          (record (s.requests i) {
            status = finish;
            operation = answering;
            replies = (s.requests i).replies ++ reply ∷ [];
          })

    answered_one :
        (reply : Reply) (k : Kind)
        → (s.requests i).operation ≡ completed
        → (s.requests i).status ≡ process
        → total (listening k) (suc s.allocated) (answered reply) ≡ 1
    unfolding listening listens
    answered_one reply k o st =
        let f = s.requests in
        let x = record (f i) { operation = idle } in
        let t = listen (new_request (kind_of (f i).query)) in
        let g = at (at f i x) s.allocated t in
        let c = record (f i) {
          status = finish;
          operation = answering;
          replies = (f i).replies ++ reply ∷ [];
        } in
        let apart : (i == s.allocated) ≡ false = ground arith in
        let last : answered reply s.allocated ≡ t = ground arith in
        let own : listening k (f i) ≡ listening k t =
          ground (arith, listening-new k (kind_of (f i).query)) in
        let none_here : listening k (g i) ≡ 0 = ground (arith, apart) in
        let idle_none : listening k x ≡ 0 = ground arith in
        let none_left : listening k c ≡ 0 = ground arith in
        omega (
          arith,
          v.one k,
          own,
          ap (listening k) last,
          none_here,
          idle_none,
          none_left,
          total-suc (listening k) s.allocated (answered reply),
          total-at (listening k) s.allocated f i x bound,
          total-at_of_le (listening k) s.allocated (at f i x) s.allocated t (omega arith),
          total-at (listening k) s.allocated g i c bound,
        )

    pub served-Inv :
        (reply : Reply) (files : FileSystem)
        → (s.requests i).operation ≡ completed
        → (s.requests i).status ≡ process
        → job (s.requests i).query s.files ≡ some (reply, files)
        → Inv job fs
            ((i, (s.requests i).query) ∷ l)
            (record { requests = answered reply; allocated = suc s.allocated; files = files })
    unfolding Fits run_jobs replies_to
    served-Inv reply files o st h = record {
      one = λ k. answered_one reply k o st;
      fits = λ j. ground (arith, v.fits j, v.fits i);
      fresh = λ j lt. ground (arith, v.fresh j);
      results = (i, reply) ∷ v.results;
      ran = rw (v.ran, h) refl;
      given = λ j. ground (arith, v.given j, v.given i, v.fits i, v.fresh j);
    }
