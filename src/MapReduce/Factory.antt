-- ===== src/MapReduce/Factory.antt =====
-- project4/src/mr_task_factory.cc: the mappers and reducers that the user registers. A generator is a
-- value of the parameters `M` and `R`.
use advanced_os.Prelude.{
  ◌≡◌, refl, ap, ◌∙◌, Bool, true, false, not, ◌||◌, Option, none, some, List, [], ◌∷◌, ◌++◌,
  if◌then◌else◌, arith,
}
use advanced_os.MapReduce.Text.{Text, text_eq, text_eq_iff}

-- a `std::unordered_map` with the user's name as its key
abbrev pub Registry : Type 0 → Type 0
Registry A = List (Text × A)

module _ {A : Type 0} where
  -- `find`
  unfoldable pub find : Text → Registry A → Option A
  find u [] = none
  find u ((v, a) ∷ m) = let rest = find u m in if text_eq v u then some a else rest

  unfoldable pub is_known : Option A → Bool
  is_known none = false
  is_known (some a) = true

  -- `insert`, which leaves a key that is there alone, and its `second`
  unfoldable pub insert : Text → A → Registry A → Bool × Registry A
  unfolding find is_known
  insert u a m = if is_known (find u m) then (false, m) else (true, m ++ (u, a) ∷ [])

pub record TaskFactory (M R : Type 0) : Type 0 where
  pub mappers : Registry M
  pub reducers : Registry R

abbrev pub instance_start : {M R : Type 0} → TaskFactory M R
instance_start = record { mappers = []; reducers = [] }

module _ {M R : Type 0} where
  -- `none` stands for nullptr in these two.
  unfoldable pub get_mapper : Text → TaskFactory M R → Option M
  unfolding find
  get_mapper user_id f = find user_id f.mappers

  unfoldable pub get_reducer : Text → TaskFactory M R → Option R
  unfolding find
  get_reducer user_id f = find user_id f.reducers

  -- `&&` leaves the reducer out where the mapper was not inserted.
  unfoldable pub register_reducer :
      Text → R → Bool × Registry M → Registry R → Bool × TaskFactory M R
  unfolding insert
  register_reducer user_id generate (false, ms) rs = (false, record { mappers = ms; reducers = rs })
  register_reducer user_id generate (true, ms) rs =
      let (second, rs') = insert user_id generate rs in
      (second, record { mappers = ms; reducers = rs' })

  unfoldable pub register_tasks : Text → M → R → TaskFactory M R → Bool × TaskFactory M R
  unfolding register_reducer insert
  register_tasks user_id generate_mapper generate_reducer f =
      register_reducer user_id generate_reducer (insert user_id generate_mapper f.mappers)
        f.reducers

  -- registrations in order, each with its result
  unfoldable pub register_each : List (Text × M × R) → TaskFactory M R → List Bool × TaskFactory M R
  unfolding register_tasks
  register_each [] f = ([], f)
  register_each ((u, m, r) ∷ ts) f =
      let (done, f') = register_tasks u m r f in
      let (dones, f'') = register_each ts f' in (done ∷ dones, f'')

module _ {A : Type 0} where
  unfoldable pub or_else : Option A → Option A → Option A
  or_else none o = o
  or_else (some a) o = some a

  find-snoc :
      (u v : Text) (a : A) (m : Registry A)
      → find v (m ++ (u, a) ∷ []) ≡ or_else (find v m) (if text_eq u v then some a else none)
  unfolding find or_else
  find-snoc u v a [] = refl
  find-snoc u v a ((w, b) ∷ m) = ground (arith, find-snoc u v a m)

  find-insert :
      (u v : Text) (a : A) (m : Registry A)
      → find v (insert u a m).1 ≡ or_else (find v m) (if text_eq u v then some a else none)
  unfolding insert is_known or_else
  find-insert u v a m = ground (arith, find-snoc u v a m, text_eq_iff u v)

known_or_else :
    {A : Type 0} (o : Option A) (a : A) (b : Bool)
    → is_known (or_else o (if b then some a else none)) ≡ (b || is_known o)
unfolding is_known or_else
known_or_else o a b = ground arith

-- the first mapper and reducer that are registered for a user
unfoldable pub first : {M R : Type 0} → Text → List (Text × M × R) → Option (M × R)
first u [] = none
first u ((v, m, r) ∷ ts) = let rest = first u ts in if text_eq v u then some (m, r) else rest

-- the names that stand in the list for the first time
unfoldable pub has : Text → List Text → Bool
has u [] = false
has u (v ∷ vs) = text_eq v u || has u vs

unfoldable pub are_new : {M R : Type 0} → List Text → List (Text × M × R) → List Bool
unfolding has
are_new seen [] = []
are_new seen ((u, m, r) ∷ ts) = not (has u seen) ∷ are_new (u ∷ seen) ts

abbrev pub fst_of : {M R : Type 0} → Option (M × R) → Option M
fst_of none = none
fst_of (some (m, r)) = some m

abbrev pub snd_of : {M R : Type 0} → Option (M × R) → Option R
snd_of none = none
snd_of (some (m, r)) = some r

module _ {M R : Type 0} where
  -- Mappers and reducers are known of the users of a list.
  record Knows (seen : List Text) (f : TaskFactory M R) : Type 0 where
    mapped : (u : Text) → is_known (find u f.mappers) ≡ has u seen
    reduced : (u : Text) → is_known (find u f.reducers) ≡ has u seen

  module _ (u : Text) (m : M) (r : R) (f : TaskFactory M R) (seen : List Text)
      (k : Knows seen f) where
    register_tasks-new : (register_tasks u m r f).0 ≡ not (has u seen)
    unfolding register_tasks
    register_tasks-new = ground (arith, k.mapped u, k.reduced u)

    register_tasks-mapper :
        (v : Text)
        → find v (register_tasks u m r f).1.mappers
          ≡ or_else (find v f.mappers) (if text_eq u v then some m else none)
    unfolding register_tasks
    register_tasks-mapper v = ground (arith, find-insert u v m f.mappers)

    register_tasks-reducer :
        (v : Text)
        → find v (register_tasks u m r f).1.reducers
          ≡ or_else (find v f.reducers) (if text_eq u v then some r else none)
    unfolding register_tasks
    register_tasks-reducer v =
        ground (arith, find-insert u v r f.reducers, k.mapped u, k.reduced u, text_eq_iff u v)

    register_tasks-Knows : Knows (u ∷ seen) (register_tasks u m r f).1
    unfolding has
    register_tasks-Knows = record {
      mapped = λ v.
          ap is_known (register_tasks-mapper v)
          ∙ known_or_else (find v f.mappers) m (text_eq u v)
          ∙ ap (λ b. text_eq u v || b) (k.mapped v);
      reduced = λ v.
          ap is_known (register_tasks-reducer v)
          ∙ known_or_else (find v f.reducers) r (text_eq u v)
          ∙ ap (λ b. text_eq u v || b) (k.reduced v);
    }

  module _ (u : Text) where
    find-register_each :
        (ts : List (Text × M × R)) (f : TaskFactory M R) (seen : List Text)
        → Knows seen f
        → ((register_each ts f).0 ≡ are_new seen ts)
          × (find u (register_each ts f).1.mappers
              ≡ or_else (find u f.mappers) (fst_of (first u ts)))
          × (find u (register_each ts f).1.reducers
              ≡ or_else (find u f.reducers) (snd_of (first u ts)))
    unfolding register_each are_new first or_else
    find-register_each [] f seen k = ground arith
    find-register_each ((v, m, r) ∷ ts) f seen k =
        let f' = (register_tasks v m r f).1 in
        ground (
          arith,
          register_tasks-new v m r f seen k,
          register_tasks-mapper v m r f seen k u,
          register_tasks-reducer v m r f seen k u,
          find-register_each ts f' (v ∷ seen) (register_tasks-Knows v m r f seen k),
        )

    -- After any registrations, the mapper and the reducer of a user are those of the user's first one,
    -- nullptr if there was none, and a registration returns true exactly when it was the first of its
    -- user.
    pub register_each-first :
        (ts : List (Text × M × R))
        → ((register_each ts instance_start).0 ≡ are_new [] ts)
          × (get_mapper u (register_each ts instance_start).1 ≡ fst_of (first u ts))
          × (get_reducer u (register_each ts instance_start).1 ≡ snd_of (first u ts))
    unfolding get_mapper get_reducer find is_known has or_else
    register_each-first ts =
        find-register_each ts instance_start [] (record { mapped = λ _. refl; reduced = λ _. refl })
