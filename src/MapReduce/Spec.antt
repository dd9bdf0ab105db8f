-- ===== src/MapReduce/Spec.antt =====
-- project4/src/mapreduce_spec.h: the configuration of a job, read and validated. The file system is
-- the parameter `FileSystem`; whether `stat` names a directory is a parameter too.
pub mod Numbers
pub mod Validity
pub mod RoundTrip
mod Examples
use Prim.Native.Char.{code}
use Prim.Native.String.{String}
use advanced_os.Prelude.{
  ℕ, zero, suc, ◌+◌, ◌-◌, ◌*◌, ◌^◌, Bool, true, false, not, ◌&&◌, ◌||◌, Option, none, some, ◌>>=◌,
  List, [], ◌∷◌, ◌++◌, ltb, leb, ◌==◌, if◌then◌else◌, length, take, drop,
}
use advanced_os.Prelude.Int.{ℤ, pos, negsuc, neg, is_nonpos}
use advanced_os.MapReduce.Text.{Text, FileSystem, newline, all_lines, text_eq, find_first}

-- the bytes of a literal
abbrev pub codes : String → Text
codes String.[] = []
codes (String.◌∷◌ c s) = code c ∷ codes s

pub record MapReduceSpec : Type 0 where
  pub n_workers : ℤ
  pub worker_ipaddr_ports : List Text
  pub input_files : List Text
  pub output_dir : Text
  pub n_output_files : ℤ
  pub map_kilobytes : ℤ
  pub user_id : Text

-- `isspace`
abbrev pub is_space : ℕ → Bool
is_space c = (c == 32) || (leb 9 c && leb c 13)

abbrev pub is_digit : ℕ → Bool
is_digit c = leb b'0' c && leb c b'9'

unfoldable pub skip_spaces : Text → Text
skip_spaces [] = []
skip_spaces (c ∷ cs) = let rest = skip_spaces cs in if is_space c then rest else c ∷ cs

-- the digits at the front of a text, read onto a number
unfoldable pub read_digits : ℕ → Text → ℕ
read_digits n [] = n
read_digits n (c ∷ cs) =
    let more = read_digits (n * 10 + (c - b'0')) cs in if is_digit c then more else n

unfoldable pub magnitude : Text → Option ℕ
unfolding read_digits
magnitude [] = none
magnitude (c ∷ cs) = if is_digit c then some (read_digits 0 (c ∷ cs)) else none

-- a value that an `int` of 32 bits holds; outside of it `std::out_of_range` is thrown
abbrev pub to_int : Bool → ℕ → Option ℤ
to_int false n = if ltb n (2 ^ 31) then some (pos n) else none
to_int true n = if leb n (2 ^ 31) then some (neg n) else none

unfoldable pub signed : Text → Option ℤ
unfolding magnitude neg
signed [] = none
signed (c ∷ cs) =
    if c == b'-'
    then magnitude cs >>= to_int true
    else if c == b'+'
    then magnitude cs >>= to_int false
    else magnitude (c ∷ cs) >>= to_int false

-- `std::stoi`, `none` where it throws
unfoldable pub stoi : Text → Option ℤ
unfolding skip_spaces signed
stoi t = signed (skip_spaces t)

-- The key and the value of a line. npos becomes the int -1, for which both are the whole line.
unfoldable pub split_entry : Text → Option ℕ → Text × Text
split_entry l none = (l, l)
split_entry l (some p) = (take p l, drop (p + 1) l)

-- The branches on the key of a line.
unfoldable pub set_entry : Text → Text → MapReduceSpec → Option MapReduceSpec
unfolding stoi
set_entry key value s =
    if text_eq key (codes "n_workers")
    then stoi value >>= (λ n. some (record s { n_workers = n }))
    else if text_eq key (codes "worker_ipaddr_ports")
    then some (record s { worker_ipaddr_ports = s.worker_ipaddr_ports ++ all_lines b',' value })
    else if text_eq key (codes "input_files")
    then some (record s { input_files = s.input_files ++ all_lines b',' value })
    else if text_eq key (codes "output_dir")
    then some (record s { output_dir = value })
    else if text_eq key (codes "n_output_files")
    then stoi value >>= (λ n. some (record s { n_output_files = n }))
    else if text_eq key (codes "map_kilobytes")
    then stoi value >>= (λ n. some (record s { map_kilobytes = n }))
    else if text_eq key (codes "user_id")
    then some (record s { user_id = value })
    else some s

unfoldable pub read_entry : Text → MapReduceSpec → Option MapReduceSpec
unfolding find_first split_entry set_entry
read_entry line s =
    let (key, value) = split_entry line (find_first b'=' line) in set_entry key value s

unfoldable pub read_entries : List Text → MapReduceSpec → Option MapReduceSpec
unfolding read_entry
read_entries [] s = some s
read_entries (l ∷ ls) s = read_entry l s >>= λ s'. read_entries ls s'

unfoldable pub read_open : Option Text → MapReduceSpec → Option (Bool × MapReduceSpec)
unfolding read_entries
read_open none s = some (false, s)
read_open (some text) s = read_entries (all_lines newline text) s >>= λ s'. some (true, s')

-- The result and the specification, `none` where an exception of `std::stoi` ends the program.
unfoldable pub read_mr_spec_from_config_file :
    FileSystem → Text → MapReduceSpec → Option (Bool × MapReduceSpec)
unfolding read_open
read_mr_spec_from_config_file fs config_filename s = read_open (fs config_filename) s

unfoldable pub is_open : Option Text → Bool
is_open none = false
is_open (some t) = true

unfoldable pub file_exists : FileSystem → Text → Bool
unfolding is_open
file_exists fs name = is_open (fs name)

abbrev pub is_empty {ℓ} : {A : Type ℓ} → List A → Bool
is_empty [] = true
is_empty (x ∷ xs) = false

-- The loop over the input files.
unfoldable pub all_exist : FileSystem → List Text → Bool
unfolding file_exists
all_exist fs [] = true
all_exist fs (f ∷ files) = let rest = all_exist fs files in if file_exists fs f then rest else false

-- `size() != n`: the int becomes a `size_t`
abbrev pub differs : ℕ → ℤ → Bool
differs size (pos n) = not (size == n)
differs size (negsuc n) = not (size == 2 ^ 64 - 1 - n)

unfoldable pub validate_mr_spec : FileSystem → (Text → Bool) → MapReduceSpec → Bool
unfolding all_exist
validate_mr_spec fs is_directory s =
    if is_nonpos s.n_workers
    then false
    else if differs (length s.worker_ipaddr_ports) s.n_workers
    then false
    else if is_empty s.input_files
    then false
    else if not (all_exist fs s.input_files)
    then false
    else if is_empty s.output_dir
    then false
    else if not (is_directory s.output_dir)
    then false
    else if is_nonpos s.n_output_files
    then false
    else if is_nonpos s.map_kilobytes
    then false
    else if is_empty s.user_id
    then false
    else true
