-- ===== src/Approvals/Normalize/Keys.antt =====
-- The keys that the startup check gives, row by row.
use eir.Prelude.{
  ◌≡◌, refl, sym, ◌∙◌, ap, subst, ℕ, true, false, none, some, List, [], ◌∷◌, map, any, Memᴰ, arith,
  if-elim, inl, inr, ◌⊎◌, ◌==◌,
}
use eir.Text.{Text, member}
use eir.Text.Laws.{text_eq_iff}
use eir.Text.Distinct.{distinct}
use eir.Approvals.Rows.{Row, is_active}
use eir.Approvals.Normalize.{clear_key, set_key, set_keys}

abbrev pub key_of : ℕ × Text → Text
key_of e = e.1

member_of_mem :
    (k : Text) (i : ℕ) (keep : List (ℕ × Text))
    → Memᴰ (i, k) keep
    → member k (map key_of keep) ≡ true
unfolding member any
member_of_mem k i [] m = elim m [ ]
member_of_mem k i (e ∷ keep) (Memᴰ.head q) =
    ground (arith, (text_eq_iff e.1 k).1 (sym (ap (λ (x : ℕ × Text). x.1) q)))
member_of_mem k i (e ∷ keep) (Memᴰ.tail m) = ground (arith, member_of_mem k i keep m)

clash :
    (k : Text) (i j : ℕ) (e : ℕ × Text) (keep : List (ℕ × Text))
    → (i, k) ≡ e
    → Memᴰ (j, k) keep
    → member e.1 (map key_of keep) ≡ false
    → ⊥
clash k i j e keep p m h =
    let t : member k (map key_of keep) ≡ true = member_of_mem k j keep m in
    let q : k ≡ e.1 = ap (λ (x : ℕ × Text). x.1) p in
    let f : member k (map key_of keep) ≡ false =
      subst (λ x. member x (map key_of keep) ≡ false) (sym q) h in
    cc

-- A key belongs to one id.
pub one_id :
    (k : Text) (i j : ℕ) (keep : List (ℕ × Text))
    → distinct (map key_of keep) ≡ true
    → Memᴰ (i, k) keep
    → Memᴰ (j, k) keep
    → i ≡ j
unfolding distinct
one_id k i j [] d m n = elim m [ ]
one_id k i j (e ∷ keep) d (Memᴰ.head p) (Memᴰ.head q) = ap (λ (x : ℕ × Text). x.0) (p ∙ sym q)
one_id k i j (e ∷ keep) d (Memᴰ.head p) (Memᴰ.tail n) =
    absurd (clash k i j e keep p n (ground arith))
one_id k i j (e ∷ keep) d (Memᴰ.tail m) (Memᴰ.head q) =
    absurd (clash k j i e keep q m (ground arith))
one_id k i j (e ∷ keep) d (Memᴰ.tail m) (Memᴰ.tail n) = one_id k i j keep (ground arith) m n

set_key-id : (id : ℕ) (key : Text) (r : Row) → (set_key id key r).id ≡ r.id
unfolding set_key
set_key-id id key r = if-elim (λ (x : Row). x.id ≡ r.id) (r.id == id) _ r (λ _. refl) (λ _. refl)

set_key-status : (id : ℕ) (key : Text) (r : Row) → (set_key id key r).status ≡ r.status
unfolding set_key
set_key-status id key r =
    if-elim (λ (x : Row). x.status ≡ r.status) (r.id == id) _ r (λ _. refl) (λ _. refl)

set_key-key :
    (id : ℕ) (key : Text) (r : Row) (k : Text)
    → (set_key id key r).action_key ≡ some k
    → (r.action_key ≡ some k) ⊎ (◌≡◌ {A = ℕ × Text} (r.id, k) (id, key))
unfolding set_key
set_key-key id key r k =
    if-elim
      (λ (x : Row).
        x.action_key ≡ some k → (r.action_key ≡ some k) ⊎ (◌≡◌ {A = ℕ × Text} (r.id, k) (id, key)))
      (r.id == id) _ r (λ e h. inr (pair_eq (ground arith) h)) (λ _ h. inl h)
  where
    pair_eq : r.id ≡ id → some key ≡ some k → ◌≡◌ {A = ℕ × Text} (r.id, k) (id, key)
    pair_eq e q = cc

pub none_ne_some : {A : Type 0} (a : A) → none ≡ some a → ⊥
none_ne_some a e = cc

-- The key that a row gets is its own, or one that is kept for its id.
pub set_keys-key :
    (keep : List (ℕ × Text)) (r : Row) (k : Text)
    → (set_keys keep r).action_key ≡ some k
    → (r.action_key ≡ some k) ⊎ Memᴰ (r.id, k) keep
unfolding set_keys
set_keys-key [] r k h = inl h
set_keys-key ((id, key) ∷ keep) r k h = elim (set_keys-key keep (set_key id key r) k h) [
  | inr m ↦ inr (Memᴰ.tail (subst (λ i. Memᴰ (i, k) keep) (set_key-id id key r) m))
  | inl q ↦ elim (set_key-key id key r k q) [ inl a ↦ inl a | inr e ↦ inr (Memᴰ.head e) ]
]

pub set_keys-id : (keep : List (ℕ × Text)) (r : Row) → (set_keys keep r).id ≡ r.id
unfolding set_keys
set_keys-id [] r = refl
set_keys-id ((id, key) ∷ keep) r = set_keys-id keep (set_key id key r) ∙ set_key-id id key r

pub set_keys-status : (keep : List (ℕ × Text)) (r : Row) → (set_keys keep r).status ≡ r.status
unfolding set_keys
set_keys-status [] r = refl
set_keys-status ((id, key) ∷ keep) r =
    set_keys-status keep (set_key id key r) ∙ set_key-status id key r

pub clear_key-id : (r : Row) → (clear_key r).id ≡ r.id
unfolding clear_key
clear_key-id r = if-elim (λ (x : Row). x.id ≡ r.id) (is_active r.status) _ r (λ _. refl) (λ _. refl)

pub clear_key-status : (r : Row) → (clear_key r).status ≡ r.status
unfolding clear_key
clear_key-status r =
    if-elim (λ (x : Row). x.status ≡ r.status) (is_active r.status) _ r (λ _. refl) (λ _. refl)

pub clear_key-none : (r : Row) → is_active r.status ≡ true → (clear_key r).action_key ≡ none
unfolding clear_key
clear_key-none r h = rw h refl
