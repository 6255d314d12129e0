-- ===== src/Updater/Plan/Args.antt =====
-- The arguments of an installer after sanitise_args.
use eir.Prelude.{
  ◌≡◌, refl, Bool, true, false, ◌&&◌, ◌||◌, not, List, [], ◌∷◌, ◌++◌, any, all, arith, if-elim,
}
use eir.Text.{Text, trim, codes, is_empty, eq_ignore_ascii_case, to_ascii_lowercase}
use eir.Text.Laws.{text_eq_sym}
use eir.Updater.Plan.{
  InstallerKind, exe, msi, zip, seven_z, tar, tar_gz, has_arg, allowed_args, is_refused_arg,
  is_shell_char, push_arg, push_args, sanitise_args, final_args,
}

-- No two are equal up to ASCII case.
abbrev pub IsDistinct : List Text → Type 0
IsDistinct [] = Unit {0}
IsDistinct (a ∷ ts) = (has_arg a ts ≡ false) × IsDistinct ts

abbrev pub is_fit : List Text → Text → Bool
is_fit allow a = has_arg a allow && not (is_refused_arg a)

all-snoc :
    (p : Text → Bool) (xs : List Text) (x : Text)
    → all p xs ≡ true
    → p x ≡ true
    → all p (xs ++ (x ∷ [])) ≡ true
unfolding all
all-snoc p [] x h k = ground arith
all-snoc p (y ∷ xs) x h k = ground (arith, all-snoc p xs x)

eq_ignore_sym : (a b : Text) → eq_ignore_ascii_case a b ≡ eq_ignore_ascii_case b a
unfolding eq_ignore_ascii_case
eq_ignore_sym a b = text_eq_sym (to_ascii_lowercase a) (to_ascii_lowercase b)

has_arg-snoc :
    (t : Text) (xs : List Text) (x : Text)
    → has_arg t (xs ++ (x ∷ [])) ≡ (has_arg t xs || eq_ignore_ascii_case x t)
unfolding has_arg any
has_arg-snoc t [] x = ground arith
has_arg-snoc t (y ∷ xs) x = ground (arith, has_arg-snoc t xs x)

IsDistinct-snoc :
    (xs : List Text) (x : Text) → IsDistinct xs → has_arg x xs ≡ false → IsDistinct (xs ++ (x ∷ []))
unfolding has_arg any
IsDistinct-snoc [] x d h = (refl, tt)
IsDistinct-snoc (y ∷ xs) x d h =
    ground (arith, has_arg-snoc y xs x, IsDistinct-snoc xs x, eq_ignore_sym x y)

-- What the arguments kept so far satisfy.
abbrev pub AreFit : List Text → List Text → Type 0
AreFit allow out = (all (is_fit allow) out ≡ true) × IsDistinct out

push_arg-AreFit :
    (allow out : List Text) (a : Text) → AreFit allow out → AreFit allow (push_arg allow out a)
unfolding push_arg
push_arg-AreFit allow out a h =
    if-elim (AreFit allow) (is_refused_arg (trim a)) out _ (λ _. h)
      (λ plain.
        if-elim (AreFit allow) (has_arg (trim a) allow && not (has_arg (trim a) out))
          (out ++ (trim a ∷ [])) out
          (λ e. (
            all-snoc (is_fit allow) out (trim a) h.0 (ground arith),
            IsDistinct-snoc out (trim a) h.1 (ground arith),
          ))
          (λ _. h))

push_args-AreFit :
    (allow out raw : List Text) → AreFit allow out → AreFit allow (push_args allow out raw)
unfolding push_args
push_args-AreFit allow out [] h = h
push_args-AreFit allow out (a ∷ raw) h =
    push_args-AreFit allow (push_arg allow out a) raw (push_arg-AreFit allow out a h)

pub sanitise_args-AreFit :
    (kind : InstallerKind) (raw : List Text) → AreFit (allowed_args kind) (sanitise_args kind raw)
unfolding sanitise_args all
sanitise_args-AreFit kind raw = push_args-AreFit (allowed_args kind) [] raw (refl, tt)

abbrev quiet : List Text
quiet = codes "/qn" ∷ codes "/norestart" ∷ []

quiet-AreFit : AreFit (allowed_args msi) quiet
unfolding all has_arg is_refused_arg eq_ignore_ascii_case codes is_empty is_shell_char
quiet-AreFit = (refl, (refl, (refl, tt)))

pub final_args-AreFit :
    (kind : InstallerKind) (args : List Text)
    → AreFit (allowed_args kind) args
    → AreFit (allowed_args kind) (final_args kind args)
unfolding final_args
final_args-AreFit msi [] h = quiet-AreFit
final_args-AreFit msi (a ∷ ts) h = h
final_args-AreFit exe args h = h
final_args-AreFit zip args h = h
final_args-AreFit seven_z args h = h
final_args-AreFit tar args h = h
final_args-AreFit tar_gz args h = h
