-- ===== src/Signals/Feed/Cleared.antt =====
-- What was cleared from the feed is not listed again when the same report comes straight back.
use eir.Prelude.{
  ℕ, zero, suc, ◌+◌, ◌*◌, ◌≤◌, ◌≡◌, refl, Bool, true, List, [], ◌∷◌, any, take, length, arith,
  Bool-cases, inl, inr,
}
use eir.Signals.Feed.{SignalView, Feed, feed_cap, is_repeat, push_item, push_fronts, clear}
use eir.Signals.Feed.Bounds.{Inv}

any-take_mono :
    {A : Type 0} (p : A → Bool) (k n : ℕ) (xs : List A)
    → k ≤ n
    → any p (take k xs) ≡ true
    → any p (take n xs) ≡ true
unfolding any
any-take_mono p zero n xs h e = cc
any-take_mono p (suc k) zero xs h e = elim h [ ]
any-take_mono p (suc k) (suc n) [] h e = cc
any-take_mono p (suc k) (suc n) (x ∷ xs) h e = ground (arith, any-take_mono p k n xs)

module _ (p : SignalView → Bool) (n : ℕ) where
  kept_below :
      (xs ys : List SignalView) (k : ℕ)
      → any p (take k ys) ≡ true
      → length xs + k ≤ n
      → any p (take n (push_fronts xs ys)) ≡ true
  unfolding any
  kept_below [] ys k e h = any-take_mono p k n ys (omega (arith, h)) e
  kept_below (x ∷ xs) ys k e h = kept_below xs (x ∷ ys) (suc k) (ground arith) (omega arith)

  kept :
      (xs ys : List SignalView)
      → any p xs ≡ true
      → length xs ≤ n
      → any p (take n (push_fronts xs ys)) ≡ true
  unfolding any
  kept [] ys e h = cc
  kept (x ∷ xs) ys e h = elim (Bool-cases (p x)) [
    | inl b ↦ kept_below xs (x ∷ ys) 1 (rw b refl) (omega arith)
    | inr b ↦ kept xs (x ∷ ys) (ground arith) (omega arith)
  ]

-- A report that repeats an item just cleared changes nothing.
pub push_item-clear :
    (feed : Feed) (item : SignalView)
    → Inv feed
    → any (λ listed. is_repeat listed item) feed.items ≡ true
    → push_item item (clear feed).1 ≡ (clear feed).1
unfolding push_item clear
push_item-clear feed item v e =
    rw
      (kept (λ listed. is_repeat listed item) (feed_cap * 2) feed.items feed.dismissed e
        (omega (arith, v.bounded)))
      refl
