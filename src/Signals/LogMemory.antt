-- ===== src/Signals/LogMemory.antt =====
-- eir-svc/src/signals/log_memory.rs: what the log watcher remembers of each file. A HashMap is the
-- list of its entries, in the unspecified order of its iteration; an Instant is a number of
-- nanoseconds; the hash and the alphanumeric characters are parameters.
pub mod Caps
use eir.Prelude.{
  ℕ, ◌-◌, ◌*◌, ◌^◌, Bool, true, false, not, Option, none, some, List, [], ◌∷◌, any, filter, map,
  length, leb, ltb, ◌==◌, if◌then◌else◌,
}
use eir.Text.{Text, Unicode, text_eq, is_empty, is_ascii_digit, split}

abbrev pub seen_ttl : ℕ
seen_ttl = 6 * 3600 * 10 ^ 9

abbrev pub max_files : ℕ
max_files = 512

abbrev pub max_lines_per_file : ℕ
max_lines_per_file = 256

-- `seen`: a line's signature and when it was last reported.
pub record FileMemory : Type 0 where
  pub read_to : ℕ
  pub touched : ℕ
  pub seen : List (ℕ × ℕ)

pub record ReadStart : Type 0 where
  pub offset : ℕ
  pub mid_line : Bool

abbrev pub Files : Type 0
Files = List (Text × FileMemory)

-- get(key), contains_key(key), and the entries without the key
unfoldable pub lookup {ℓ κ} : {K : Type ℓ} {V : Type κ} → (K → Bool) → List (K × V) → Option V
lookup p [] = none
lookup p ((k, v) ∷ es) = let rest = lookup p es in if p k then some v else rest

unfoldable pub without {ℓ κ} : {K : Type ℓ} {V : Type κ} → (K → Bool) → List (K × V) → List (K × V)
without p [] = []
without p ((k, v) ∷ es) = let rest = without p es in if p k then rest else (k, v) ∷ rest

-- min_by_key, then remove: the first entry with the least time goes.
unfoldable pub least {ℓ κ} : {K : Type ℓ} {V : Type κ} → (V → ℕ) → ℕ → List (K × V) → ℕ
least time m [] = m
least time m ((k, v) ∷ es) = least time (if ltb (time v) m then time v else m) es

unfoldable pub drop_at {ℓ κ} : {K : Type ℓ} {V : Type κ} → (V → ℕ) → ℕ → List (K × V) → List (K × V)
drop_at time m [] = []
drop_at time m ((k, v) ∷ es) =
    let rest = drop_at time m es in if time v == m then es else (k, v) ∷ rest

unfoldable pub remove_oldest {ℓ κ} :
    {K : Type ℓ} {V : Type κ} → (V → ℕ) → List (K × V) → List (K × V)
remove_oldest time [] = []
remove_oldest time ((k, v) ∷ es) = drop_at time (least time (time v) es) ((k, v) ∷ es)

abbrev pub is_path : Text → Text → Bool
is_path path p = text_eq p path

-- LogMemory::file, then the caller's change to the entry.
unfoldable pub with_file : Text → ℕ → (FileMemory → FileMemory) → Files → Files
with_file path now change files = elim (lookup (is_path path) files) [
  | some file ↦ (path, change (record file { touched = now })) ∷ without (is_path path) files
  | none ↦
      (path, change (record { read_to = 0; touched = now; seen = [] }))
      ∷ (if leb max_files (length files) then remove_oldest (λ f. f.touched) files else files)
]

unfoldable pub tail_start : ℕ → ℕ → Option ReadStart
tail_start len max =
    if ltb 0 len then some (record { offset = len - max; mid_line = ltb max len }) else none

-- The start of the next read, and the file's entry after it.
unfoldable pub next_read : FileMemory → ℕ → ℕ → Option ReadStart × FileMemory
next_read file len max =
    if ltb len file.read_to
    then (tail_start len max, record file { read_to = 0 })
    else if len == file.read_to
    then (none, file)
    else if ltb max (len - file.read_to)
    then (some (record { offset = len - max; mid_line = ltb max len }), file)
    else (some (record { offset = file.read_to; mid_line = false }), file)

unfoldable pub read_start : Files → Text → ℕ → ℕ → ℕ → Option ReadStart × Files
read_start files path len max now = elim (lookup (is_path path) files) [
  | none ↦ (tail_start len max, files)
  | some file ↦
      let (start, file) = next_read (record file { touched = now }) len max in
      (start, (path, file) ∷ without (is_path path) files)
]

unfoldable pub mark_read : Files → Text → ℕ → ℕ → Files
mark_read files path to now = with_file path now (λ f. record f { read_to = to }) files

abbrev pub is_recent : ℕ → ℕ → Bool
is_recent now at = ltb (now - at) seen_ttl

abbrev recent_seen : Option ℕ → ℕ → Bool
recent_seen none now = false
recent_seen (some at) now = is_recent now at

abbrev is_known : Option ℕ → Bool
is_known none = false
is_known (some _) = true

-- Room for a new signature: the stale lines go, then the oldest one if there is still none.
unfoldable pub make_room : ℕ → List (ℕ × ℕ) → List (ℕ × ℕ)
make_room now seen =
    if leb max_lines_per_file (length seen)
    then (let fresh = filter (λ e. is_recent now e.1) seen in
        if leb max_lines_per_file (length fresh) then remove_oldest (λ at. at) fresh else fresh)
    else seen

-- One line of one file: is it new, and what is remembered then.
unfoldable pub sight : ℕ → ℕ → FileMemory → Bool × FileMemory
sight signature now file =
    let known = lookup (λ s. s == signature) file.seen in
    if recent_seen known now
    then (false, file)
    else if is_known known
    then (true, record file { seen = (signature, now) ∷ without (λ s. s == signature) file.seen })
    else (true, record file { seen = (signature, now) ∷ make_room now file.seen })

abbrev entry : Text → ℕ → Files → FileMemory
entry path now files = elim (lookup (is_path path) files) [
  | none ↦ record { read_to = 0; touched = now; seen = [] }
  | some file ↦ record file { touched = now }
]

unfoldable pub line_tokens : Unicode → (ℕ → Bool) → Text → List Text
line_tokens u alphanumeric line =
    map (λ token. if any is_ascii_digit token then 0x23 ∷ [] else u.to_lowercase token)
      (filter (λ token. not (is_empty token)) (split (λ c. not (alphanumeric c)) line))

-- `hash` is DefaultHasher on the tokens in turn.
unfoldable pub first_sighting :
    Unicode → (ℕ → Bool) → (List Text → ℕ) → Files → Text → Text → ℕ → Bool × Files
first_sighting u alphanumeric hash files path line now =
    let signature = hash (line_tokens u alphanumeric line) in
    (
      (sight signature now (entry path now files)).0,
      with_file path now (λ f. (sight signature now f).1) files,
    )

pub data LogCall : Type 0 where
  start_call : (path : Text) (len max now : ℕ) → LogCall
  mark_call : (path : Text) (to now : ℕ) → LogCall
  sight_call : (path line : Text) (now : ℕ) → LogCall

module _ (u : Unicode) (alphanumeric : ℕ → Bool) (hash : List Text → ℕ) where
  unfoldable pub step_log : Files → LogCall → Files
  step_log files (start_call path len max now) = (read_start files path len max now).1
  step_log files (mark_call path to now) = mark_read files path to now
  step_log files (sight_call path line now) =
      (first_sighting u alphanumeric hash files path line now).1

  unfoldable pub run_log : Files → List LogCall → Files
  run_log files [] = files
  run_log files (c ∷ cs) = run_log (step_log files c) cs
