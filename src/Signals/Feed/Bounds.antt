-- ===== src/Signals/Feed/Bounds.antt =====
-- The feed stays bounded and lists nothing twice; what was cleared stays cleared.
use eir.Prelude.{
  ℕ, zero, suc, ◌*◌, ◌≤◌, ◌≡◌, refl, Bool, true, false, ◌||◌, Option, none, some, List, [], ◌∷◌,
  ◌++◌, any, take, length, length-take, arith, if-elim, subst, if◌then◌else◌,
}
use eir.Signals.Feed.{
  SignalView, Feed, feed_cap, is_repeat, same_view, push_item, push, push_fronts,
  remember_dismissed, clear, remove_first, dismiss, Call, report, clear_all, dismiss_one, step_feed,
  run_feed,
}

abbrev pub Unlisted : SignalView → List SignalView → Type 0
Unlisted item xs = any (λ listed. is_repeat listed item) xs ≡ false

-- No item repeats an older one.
abbrev pub Distinct : List SignalView → Type 0
Distinct [] = Unit {0}
Distinct (x ∷ xs) = Unlisted x xs × Distinct xs

pub record Inv (feed : Feed) : Type 0 where
  pub bounded : length feed.items ≤ feed_cap
  pub remembered : length feed.dismissed ≤ feed_cap * 2
  pub distinct : Distinct feed.items

any-append :
    {A : Type 0} (p : A → Bool) (xs ys : List A) → any p (xs ++ ys) ≡ (any p xs || any p ys)
unfolding any
any-append p [] ys = refl
any-append p (x ∷ xs) ys = ground (arith, any-append p xs ys)

any-take :
    {A : Type 0} (p : A → Bool) (n : ℕ) (xs : List A) → any p xs ≡ false → any p (take n xs) ≡ false
unfolding any
any-take p zero xs h = refl
any-take p (suc n) [] h = refl
any-take p (suc n) (x ∷ xs) h = ground (arith, any-take p n xs)

Distinct-take : (n : ℕ) (xs : List SignalView) → Distinct xs → Distinct (take n xs)
Distinct-take zero xs d = tt
Distinct-take (suc n) [] d = tt
Distinct-take (suc n) (x ∷ xs) d = (any-take _ n xs d.0, Distinct-take n xs d.1)

push_item-Inv : (item : SignalView) (feed : Feed) → Inv feed → Inv (push_item item feed)
unfolding push_item
push_item-Inv item feed v =
    if-elim Inv (any (λ listed. is_repeat listed item) (feed.items ++ feed.dismissed)) _ _ (λ e. v)
      λ e. record {
        bounded = omega (arith, length-take feed_cap (item ∷ feed.items));
        remembered = v.remembered;
        distinct = Distinct-take feed_cap (item ∷ feed.items) (
          ground (arith, any-append (λ listed. is_repeat listed item) feed.items feed.dismissed),
          v.distinct,
        );
      }

pub push-Inv : (feed : Feed) (items : List SignalView) → Inv feed → Inv (push feed items)
unfolding push
push-Inv feed [] v = v
push-Inv feed (item ∷ items) v = push-Inv (push_item item feed) items (push_item-Inv item feed v)

pub clear-Inv : (feed : Feed) → Inv feed → Inv (clear feed).1
unfolding clear
clear-Inv feed v = record {
  bounded = omega arith;
  remembered = omega (arith, length-take (feed_cap * 2) (push_fronts feed.items feed.dismissed));
  distinct = tt;
}

-- The second list is the first without one item.
data Removed : List SignalView → List SignalView → Type 0 where
  here : {x : SignalView} {xs : List SignalView} → Removed (x ∷ xs) xs
  there : {x : SignalView} {xs ys : List SignalView} → Removed xs ys → Removed (x ∷ xs) (x ∷ ys)

remove_first-Removed :
    (item x : SignalView) (xs ys : List SignalView)
    → remove_first item xs ≡ some (x, ys)
    → Removed xs ys
unfolding remove_first
remove_first-Removed item x [] ys e = cc
remove_first-Removed item x (z ∷ xs) ys e =
    go (same_view z item) (remove_first item xs) (λ y zs. remove_first-Removed item y xs zs) e
  where
    go :
        (b : Bool) (o : Option (SignalView × List SignalView))
        → ((y : SignalView) (zs : List SignalView) → o ≡ some (y, zs) → Removed xs zs)
        → (if b then some (z, xs) else elim o as (λ _. Option (SignalView × List SignalView)) [
          | none ↦ none
          | some (found, others) ↦ some (found, z ∷ others)
        ])
          ≡ some (x, ys)
        → Removed (z ∷ xs) ys
    go true o ih e = let same : xs ≡ ys = ground arith in subst (Removed (z ∷ xs)) same here
    go false none ih e = cc
    go false (some (y, zs)) ih e =
        let same : z ∷ zs ≡ ys = ground arith in
        subst (Removed (z ∷ xs)) same (there (ih y zs refl))

Removed-length : (xs ys : List SignalView) → Removed xs ys → length ys ≤ length xs
Removed-length xs ys here = omega arith
Removed-length (x ∷ xs) (y ∷ ys) (there r) = omega (arith, Removed-length xs ys r)

Removed-any :
    (p : SignalView → Bool) (xs ys : List SignalView)
    → Removed xs ys
    → any p xs ≡ false
    → any p ys ≡ false
unfolding any
Removed-any p xs ys here h = ground arith
Removed-any p (x ∷ xs) (y ∷ ys) (there r) h = ground (arith, Removed-any p xs ys r)

Removed-Distinct : (xs ys : List SignalView) → Removed xs ys → Distinct xs → Distinct ys
Removed-Distinct xs ys here d = d.1
Removed-Distinct (x ∷ xs) (y ∷ ys) (there r) d =
    (Removed-any (λ l. is_repeat l x) xs ys r d.0, Removed-Distinct xs ys r d.1)

pub dismiss-Inv : (feed : Feed) (item : SignalView) → Inv feed → Inv (dismiss feed item).1
unfolding dismiss
dismiss-Inv feed item v = go (remove_first item feed.items) refl
  where
    go :
        (o : Option (SignalView × List SignalView))
        → remove_first item feed.items ≡ o
        → Inv
            (elim o as (λ _. Bool × Feed) [
              | none ↦ (false, feed)
              | some (removed, others) ↦
                  (true, remember_dismissed (removed ∷ []) (record feed { items = others }))
            ]).1
    go none e = v
    go (some (x, ys)) e =
        let r = remove_first-Removed item x feed.items ys e in
        record {
          bounded = omega (arith, v.bounded, Removed-length feed.items ys r);
          remembered = omega (arith, length-take (feed_cap * 2) (x ∷ feed.dismissed));
          distinct = Removed-Distinct feed.items ys r v.distinct;
        }

-- After any reports, clears and dismissals the feed lists at most 30 items, remembers at most 60
-- dismissed ones, and lists no item that repeats another within ten minutes.
pub run_feed-Inv : (feed : Feed) (cs : List Call) → Inv feed → Inv (run_feed feed cs)
unfolding run_feed step_feed
run_feed-Inv feed [] v = v
run_feed-Inv feed (report items ∷ cs) v = run_feed-Inv (push feed items) cs (push-Inv feed items v)
run_feed-Inv feed (clear_all ∷ cs) v = run_feed-Inv (clear feed).1 cs (clear-Inv feed v)
run_feed-Inv feed (dismiss_one item ∷ cs) v =
    run_feed-Inv (dismiss feed item).1 cs (dismiss-Inv feed item v)
