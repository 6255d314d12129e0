-- ===== src/Signals/LogMemory/Caps.antt =====
-- The log memory stays bounded, and reports a line once for each period.
use eir.Prelude.{
  ℕ, suc, ◌+◌, ◌-◌, ◌≤◌, ◌<◌, ◌≡◌, refl, ◌⊎◌, inl, inr, Bool, true, false, some, List, [], ◌∷◌,
  filter, length, length-filter, arith, if-elim, leb, ltb, ◌==◌, if◌then◌else◌, Option-cases,
}
use eir.Text.{Text, Unicode}
use eir.Signals.LogMemory.{
  FileMemory, Files, is_path, LogCall, start_call, mark_call, sight_call, step_log, run_log,
  max_files, max_lines_per_file, lookup, without, least, drop_at, remove_oldest, with_file,
  make_room, sight, first_sighting, mark_read, read_start, next_read, tail_start, ReadStart,
  is_recent, seen_ttl, line_tokens,
}

module _ {K V : Type 0} where
  length-without : (p : K → Bool) (es : List (K × V)) → length (without p es) ≤ length es
  unfolding without
  length-without p [] = omega arith
  length-without p ((k, v) ∷ es) = ground (arith, length-without p es)

  -- A key that is there leaves one entry less.
  without-found :
      (p : K → Bool) (es : List (K × V)) (v : V)
      → lookup p es ≡ some v
      → length (without p es) < length es
  unfolding without lookup
  without-found p [] v e = cc
  without-found p ((k, x) ∷ es) v e = ground (arith, length-without p es, without-found p es v)

  least-hit :
      (time : V → ℕ) (m : ℕ) (es : List (K × V))
      → (least time m es ≡ m) ⊎ (suc (length (drop_at time (least time m es) es)) ≡ length es)
  unfolding least drop_at
  least-hit time m [] = inl refl
  least-hit time m ((k, v) ∷ es) =
      ground (arith, least-hit time (if ltb (time v) m then time v else m) es)

  length-remove_oldest :
      (time : V → ℕ) (es : List (K × V)) (n : ℕ)
      → length es ≤ suc n
      → length (remove_oldest time es) ≤ n
  unfolding remove_oldest drop_at
  length-remove_oldest time [] n h = omega arith
  length-remove_oldest time ((k, v) ∷ es) n h = ground (arith, least-hit time (time v) es)

-- Every remembered file has at most 256 lines.
abbrev pub IsSmall : Files → Type 0
IsSmall [] = Unit {0}
IsSmall ((path, file) ∷ files) = (length file.seen ≤ max_lines_per_file) × IsSmall files

pub record Inv (files : Files) : Type 0 where
  pub few : length files ≤ max_files
  pub small : IsSmall files

length-make_room :
    (now : ℕ) (seen : List (ℕ × ℕ))
    → length seen ≤ max_lines_per_file
    → length (make_room now seen) < max_lines_per_file
unfolding make_room
length-make_room now seen h =
    let fresh = filter (λ e. is_recent now e.1) seen in
    ground (
      arith,
      length-filter (λ e. is_recent now e.1) seen,
      length-remove_oldest (λ at. at) fresh 255,
    )

length-sight :
    (signature now : ℕ) (file : FileMemory)
    → length file.seen ≤ max_lines_per_file
    → length (sight signature now file).1.seen ≤ max_lines_per_file
unfolding sight
length-sight signature now file h = elim (Option-cases (lookup (λ s. s == signature) file.seen)) [
  | inl e ↦ ground (arith, length-make_room now file.seen h)
  | inr (v, e) ↦ ground (arith, without-found (λ s. s == signature) file.seen v e)
]

sight-known :
    (signature now : ℕ) (file : FileMemory)
    → (sight signature now file).0 ≡ true
    → lookup (λ s. s == signature) (sight signature now file).1.seen ≡ some now
unfolding sight lookup
sight-known signature now file h = elim (Option-cases (lookup (λ s. s == signature) file.seen)) [
  | inl e ↦ ground arith
  | inr (v, e) ↦ ground arith
]

sight-recent :
    (signature now later : ℕ) (file : FileMemory)
    → lookup (λ s. s == signature) file.seen ≡ some now
    → later - now < seen_ttl
    → (sight signature later file).0 ≡ false
unfolding sight
sight-recent signature now later file e k = ground arith

-- A line that was reported is not reported again for the same file until six hours have passed.
pub sight-once :
    (signature now later : ℕ) (file : FileMemory)
    → (sight signature now file).0 ≡ true
    → later - now < seen_ttl
    → (sight signature later (sight signature now file).1).0 ≡ false
sight-once signature now later file h k =
    sight-recent signature now later (sight signature now file).1 (sight-known signature now file h)
      k

IsSmall-without : (p : Text → Bool) (files : Files) → IsSmall files → IsSmall (without p files)
unfolding without
IsSmall-without p [] h = tt
IsSmall-without p ((k, f) ∷ files) h = ground (arith, IsSmall-without p files)

IsSmall-drop_at :
    (time : FileMemory → ℕ) (m : ℕ) (files : Files) → IsSmall files → IsSmall (drop_at time m files)
unfolding drop_at
IsSmall-drop_at time m [] h = tt
IsSmall-drop_at time m ((k, f) ∷ files) h = ground (arith, IsSmall-drop_at time m files)

IsSmall-remove_oldest :
    (time : FileMemory → ℕ) (files : Files) → IsSmall files → IsSmall (remove_oldest time files)
unfolding remove_oldest
IsSmall-remove_oldest time [] h = tt
IsSmall-remove_oldest time ((k, f) ∷ files) h = IsSmall-drop_at time _ ((k, f) ∷ files) h

IsSmall-lookup :
    (p : Text → Bool) (files : Files) (f : FileMemory)
    → IsSmall files
    → lookup p files ≡ some f
    → length f.seen ≤ max_lines_per_file
unfolding lookup
IsSmall-lookup p [] f h e = cc
IsSmall-lookup p ((k, g) ∷ files) f h e = ground (arith, IsSmall-lookup p files f)

-- A change that keeps a file's lines few keeps the memory bounded.
with_file-Inv :
    (path : Text) (now : ℕ) (change : FileMemory → FileMemory) (files : Files)
    → ((f : FileMemory)
        → length f.seen ≤ max_lines_per_file
        → length (change f).seen ≤ max_lines_per_file)
    → Inv files
    → Inv (with_file path now change files)
unfolding with_file
with_file-Inv path now change files c v = elim (Option-cases (lookup (is_path path) files)) [
  | inl e ↦
      rw (e, with_file)
        (record {
          few = ground (arith, v.few, length-remove_oldest (λ f. f.touched) files 511);
          small = (
            c (record { read_to = 0; touched = now; seen = [] }) (omega arith),
            if-elim IsSmall (leb max_files (length files)) _ _
                (λ _. IsSmall-remove_oldest (λ f. f.touched) files v.small) (λ _. v.small),
          );
        })
  | inr (f, e) ↦
      rw (e, with_file)
        (record {
          few = omega (arith, v.few, without-found (is_path path) files f e);
          small = (
            c (record f { touched = now }) (IsSmall-lookup (is_path path) files f v.small e),
            IsSmall-without (is_path path) files v.small,
          );
        })
]

next_read-seen : (file : FileMemory) (len max : ℕ) → (next_read file len max).1.seen ≡ file.seen
unfolding next_read
next_read-seen file len max = ground arith

read_start-Inv :
    (files : Files) (path : Text) (len max now : ℕ)
    → Inv files
    → Inv (read_start files path len max now).1
unfolding read_start
read_start-Inv files path len max now v = elim (Option-cases (lookup (is_path path) files)) [
  | inl e ↦ rw (e, read_start) v
  | inr (f, e) ↦
      rw (e, read_start)
        (record {
          few = omega (arith, v.few, without-found (is_path path) files f e);
          small = (
            rw (next_read-seen (record f { touched = now }) len max)
                (IsSmall-lookup (is_path path) files f v.small e),
            IsSmall-without (is_path path) files v.small,
          );
        })
]

-- After any reads and sightings at most 512 files are remembered, each with at most 256 lines, if
-- that was so before.
pub run_log-Inv :
    (u : Unicode) (alphanumeric : ℕ → Bool) (hash : List Text → ℕ) (files : Files)
    (cs : List LogCall)
    → Inv files
    → Inv (run_log u alphanumeric hash files cs)
unfolding run_log step_log mark_read first_sighting
run_log-Inv u alnum hash files [] v = v
run_log-Inv u alnum hash files (start_call path len max now ∷ cs) v =
    run_log-Inv u alnum hash (read_start files path len max now).1 cs
      (read_start-Inv files path len max now v)
run_log-Inv u alnum hash files (mark_call path to now ∷ cs) v =
    run_log-Inv u alnum hash (mark_read files path to now) cs
      (with_file-Inv path now (λ f. record f { read_to = to }) files (λ f h. h) v)
run_log-Inv u alnum hash files (sight_call path line now ∷ cs) v =
    run_log-Inv u alnum hash (first_sighting u alnum hash files path line now).1 cs (
      with_file-Inv path now (λ f. (sight (hash (line_tokens u alnum line)) now f).1) files
        (λ f h. length-sight (hash (line_tokens u alnum line)) now f h) v)

-- A read of a known file ends at its length, takes at most the given number of bytes, and starts
-- before what was already read only if the file shrank.
pub next_read-window :
    (file : FileMemory) (len max : ℕ) (start : ReadStart)
    → (next_read file len max).0 ≡ some start
    → (start.offset ≤ len)
      × (len ≤ start.offset + max)
      × ((file.read_to ≤ start.offset) ⊎ (len < file.read_to))
unfolding next_read tail_start
next_read-window file len max start h = ground arith
