-- ===== src/Approvals/Startup.antt =====
-- eir-svc/src/audit.rs, sanitize_active_approval_rows: the queue's limits, enforced at startup.
use eir.Prelude.{
  ℕ, zero, suc, ◌+◌, ◌≤◌, ◌≡◌, refl, Bool, true, false, ◌&&◌, ◌||◌, not, List, [], ◌∷◌, ◌++◌, any,
  filter, map, take, length, length-append, length-map, length-take, arith, ltb, ◌==◌,
  if◌then◌else◌, ap, Memᴰ,
}
use eir.Text.{utf8_len}
use eir.Approvals.Rows.{
  Row, Status, pending, approved, rejected, is_active, same_status, count_active,
}
use eir.Approvals.Queue.{Descending, filter-Descending}
use eir.Approvals.{Db, max_active_approvals, max_action_bytes, max_info_bytes, max_baseline_bytes}

-- length(CAST(action_json AS BLOB)) > ? OR …
unfoldable pub is_oversized : Row → Bool
is_oversized r =
    ltb max_action_bytes (utf8_len r.action_json)
    || ltb max_info_bytes (utf8_len r.info_json)
    || ltb max_baseline_bytes (utf8_len r.baseline_json)

-- The active rows, approved ones first, newest first: the table has its newest row at the head.
unfoldable pub ranked : List Row → List Row
ranked rs =
    filter (λ r. same_status r.status approved) rs ++ filter (λ r. same_status r.status pending) rs

unfoldable pub has_id : List ℕ → ℕ → Bool
has_id ids id = any (λ i. i == id) ids

-- id NOT IN (SELECT … LIMIT ?), among the active rows.
unfoldable pub drop_overflow : List Row → List Row
drop_overflow rs =
    let kept = take max_active_approvals (map (λ r. r.id) (ranked rs)) in
    filter (λ r. not (is_active r.status && not (has_id kept r.id))) rs

unfoldable pub sanitize_rows : List Row → List Row
sanitize_rows rs = drop_overflow (filter (λ r. not (is_active r.status && is_oversized r)) rs)

unfoldable pub sanitize_active_approval_rows : Db → Db
sanitize_active_approval_rows db = record db { rows = sanitize_rows db.rows }

-- Rows whose id is listed, and rows with one id.
count_ids : List ℕ → List Row → ℕ
count_ids ids [] = 0
count_ids ids (r ∷ rs) = (if has_id ids r.id then 1 else 0) + count_ids ids rs

count_id : ℕ → List Row → ℕ
count_id id [] = 0
count_id id (r ∷ rs) = (if id == r.id then 1 else 0) + count_id id rs

count_id-above : (id n : ℕ) (rs : List Row) → Descending n rs → n ≤ id → count_id id rs ≡ 0
unfolding count_id
count_id-above id n [] d h = refl
count_id-above id n (r ∷ rs) d h = ground (arith, count_id-above id r.id rs d.1)

count_id-one : (id n : ℕ) (rs : List Row) → Descending n rs → count_id id rs ≤ 1
unfolding count_id
count_id-one id n [] d = omega arith
count_id-one id n (r ∷ rs) d =
    ground (arith, count_id-one id r.id rs d.1, count_id-above id r.id rs d.1)

count_ids-nil : (rs : List Row) → count_ids [] rs ≡ 0
unfolding count_ids has_id any
count_ids-nil [] = refl
count_ids-nil (r ∷ rs) = omega (arith, count_ids-nil rs)

count_ids-cons :
    (id : ℕ) (ids : List ℕ) (rs : List Row)
    → count_ids (id ∷ ids) rs ≤ count_id id rs + count_ids ids rs
unfolding count_ids count_id has_id any
count_ids-cons id ids [] = omega arith
count_ids-cons id ids (r ∷ rs) = ground (arith, count_ids-cons id ids rs)

count_ids-length :
    (ids : List ℕ) (n : ℕ) (rs : List Row) → Descending n rs → count_ids ids rs ≤ length ids
count_ids-length [] n rs d = omega (arith, count_ids-nil rs)
count_ids-length (id ∷ ids) n rs d =
    omega (arith, count_ids-cons id ids rs, count_id-one id n rs d, count_ids-length ids n rs d)

count_active-kept :
    (ids : List ℕ) (rs : List Row)
    → count_active (filter (λ r. not (is_active r.status && not (has_id ids r.id))) rs)
      ≤ count_ids ids rs
unfolding count_active count_ids filter
count_active-kept ids [] = omega arith
count_active-kept ids (r ∷ rs) = ground (arith, count_active-kept ids rs)

-- Whatever rows the table held, at most 256 are active after the startup check, if ids fall along
-- the table.
pub sanitize_rows-bounded :
    (n : ℕ) (rs : List Row)
    → Descending n rs
    → count_active (sanitize_rows rs) ≤ max_active_approvals
unfolding sanitize_rows drop_overflow
sanitize_rows-bounded n rs d =
    let small = filter (λ r. not (is_active r.status && is_oversized r)) rs in
    let ids = map (λ (r : Row). r.id) (ranked small) in
    let kept = take max_active_approvals ids in
    omega (
      arith,
      count_active-kept kept small,
      count_ids-length kept n small
          (filter-Descending (λ r. not (is_active r.status && is_oversized r)) n rs d),
      length-take max_active_approvals ids,
    )

filter-keeps : (q : Row → Bool) (rs : List Row) → any q rs ≡ false → filter (λ r. not (q r)) rs ≡ rs
unfolding filter any
filter-keeps q [] h = refl
filter-keeps q (r ∷ rs) h = ground (arith, filter-keeps q rs)

take_all : {A : Type 0} (n : ℕ) (xs : List A) → length xs ≤ n → take n xs ≡ xs
take_all zero [] h = refl
take_all zero (x ∷ xs) h = elim h [ ]
take_all (suc n) [] h = refl
take_all (suc n) (x ∷ xs) h = ap (λ t. x ∷ t) (take_all n xs (omega (arith, h)))

length-ranked : (rs : List Row) → length (ranked rs) ≡ count_active rs
unfolding ranked filter count_active same_status is_active
length-ranked rs = omega (
  arith,
  go rs,
  length-append (filter (λ r. same_status r.status approved) rs)
      (filter (λ r. same_status r.status pending) rs),
)
  where
    go :
        (rs : List Row)
        → length (filter (λ r. same_status r.status approved) rs)
            + length (filter (λ r. same_status r.status pending) rs)
          ≡ count_active rs
    go [] = refl
    go (r ∷ rs) = ground (arith, go rs)

has_id-filter :
    (p : Row → Bool) (rs : List Row) (r : Row)
    → Memᴰ r rs
    → p r ≡ true
    → has_id (map (λ x. x.id) (filter p rs)) r.id ≡ true
unfolding has_id filter any
has_id-filter p [] r m e = elim m [ ]
has_id-filter p (x ∷ rs) r (Memᴰ.head h) e = ground arith
has_id-filter p (x ∷ rs) r (Memᴰ.tail m) e = ground (arith, has_id-filter p rs r m e)

has_id-append :
    (xs ys : List Row) (id : ℕ)
    → (has_id (map (λ x. x.id) xs) id || has_id (map (λ x. x.id) ys) id) ≡ true
    → has_id (map (λ x. x.id) (xs ++ ys)) id ≡ true
unfolding has_id any
has_id-append [] ys id h = h
has_id-append (x ∷ xs) ys id h = ground (arith, has_id-append xs ys id)

has_id-ranked :
    (rs : List Row) (r : Row)
    → Memᴰ r rs
    → is_active r.status ≡ true
    → has_id (map (λ x. x.id) (ranked rs)) r.id ≡ true
unfolding ranked is_active same_status
has_id-ranked rs r m a =
    has_id-append (filter (λ r. same_status r.status approved) rs)
      (filter (λ r. same_status r.status pending) rs) r.id
      (split r.status (has_id-filter (λ r. same_status r.status approved) rs r m)
        (has_id-filter (λ r. same_status r.status pending) rs r m) a)
  where
    split :
        {b c : Bool} (s : Status)
        → (same_status s approved ≡ true → b ≡ true)
        → (same_status s pending ≡ true → c ≡ true)
        → is_active s ≡ true
        → (b || c) ≡ true
    split approved f g h = rw (f refl) refl
    split pending f g h = ground (arith, g refl)
    split rejected f g h = cc

any-none :
    {A : Type 0} (q : A → Bool) (xs : List A)
    → ((x : A) → Memᴰ x xs → q x ≡ false)
    → any q xs ≡ false
unfolding any
any-none q [] h = refl
any-none q (x ∷ xs) h = rw (h x (Memᴰ.head refl)) (any-none q xs (λ y m. h y (Memᴰ.tail m)))

-- A queue within its limits is left alone at startup: if at most 256 rows are active and none of
-- them is oversized, the check changes nothing.
pub sanitize_rows-unchanged :
    (rs : List Row)
    → count_active rs ≤ max_active_approvals
    → any (λ r. is_active r.status && is_oversized r) rs ≡ false
    → sanitize_rows rs ≡ rs
unfolding sanitize_rows drop_overflow
sanitize_rows-unchanged rs c o =
    let ids = map (λ (r : Row). r.id) (ranked rs) in
    let all : take max_active_approvals ids ≡ ids =
      take_all max_active_approvals ids
        (omega (arith, c, length-ranked rs, length-map (ranked rs) (λ (r : Row). r.id))) in
    rw (filter-keeps (λ r. is_active r.status && is_oversized r) rs o) (
      rw all (
        filter-keeps (λ r. is_active r.status && not (has_id ids r.id)) rs
          (any-none (λ r. is_active r.status && not (has_id ids r.id)) rs
            λ r m. known (is_active r.status) (has_id ids r.id) (has_id-ranked rs r m))))
  where
    known : (a b : Bool) → (a ≡ true → b ≡ true) → (a && not b) ≡ false
    known true b f = rw (f refl) refl
    known false b f = refl
