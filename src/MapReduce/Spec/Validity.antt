-- ===== src/MapReduce/Spec/Validity.antt =====
-- What validate_mr_spec of project4/src/mapreduce_spec.h accepts.
use advanced_os.Prelude.{
  ◌≡◌, ◌<◌, ◌↔◌, Bool, true, Option, none, some, List, [], ◌∷◌, length, All, arith,
}
use advanced_os.Prelude.Int.{ℤ, pos, negsuc}
use advanced_os.MapReduce.Text.{Text, FileSystem}
use advanced_os.MapReduce.Spec.{MapReduceSpec, file_exists, is_open, all_exist, validate_mr_spec}

abbrev pub IsPositive : ℤ → Type 0
IsPositive (pos n) = 0 < n
IsPositive (negsuc n) = ⊥

abbrev pub IsReadable : Option Text → Type 0
IsReadable none = ⊥
IsReadable (some t) = Unit

abbrev pub IsNonempty {ℓ} : {A : Type ℓ} → List A → Type 0
IsNonempty [] = ⊥
IsNonempty (x ∷ xs) = Unit

-- what a job needs of its configuration
pub record IsUsable (fs : FileSystem) (is_directory : Text → Bool) (s : MapReduceSpec)
    : Type 0 where
  pub workers : IsPositive s.n_workers
  pub addressed : pos (length s.worker_ipaddr_ports) ≡ s.n_workers
  pub inputs : IsNonempty s.input_files
  pub readable : All (λ f. IsReadable (fs f)) s.input_files
  pub named : IsNonempty s.output_dir
  pub directory : is_directory s.output_dir ≡ true
  pub outputs : IsPositive s.n_output_files
  pub shard_size : IsPositive s.map_kilobytes
  pub user : IsNonempty s.user_id

file_exists-IsReadable : (o : Option Text) → (is_open o ≡ true) ↔ IsReadable o
unfolding is_open
file_exists-IsReadable none = ground arith
file_exists-IsReadable (some t) = ground arith

all_exist-All :
    (fs : FileSystem) (files : List Text)
    → (all_exist fs files ≡ true) ↔ All (λ f. IsReadable (fs f)) files
unfolding all_exist file_exists
all_exist-All fs [] = ground arith
all_exist-All fs (f ∷ files) = ground (arith, file_exists-IsReadable (fs f), all_exist-All fs files)

module _ (fs : FileSystem) (is_directory : Text → Bool) where
  -- Validation accepts a specification exactly when it names as many workers as it has addresses, and
  -- at least one, input files that are not none and can all be read, an output directory that exists,
  -- a user, and positive numbers of output files and kilobytes of a shard.
  pub validate_mr_spec-IsUsable :
      (s : MapReduceSpec) → (validate_mr_spec fs is_directory s ≡ true) ↔ IsUsable fs is_directory s
  unfolding validate_mr_spec
  validate_mr_spec-IsUsable s = ground (arith, all_exist-All fs s.input_files)
