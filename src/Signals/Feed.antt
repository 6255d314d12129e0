-- ===== src/Signals/Feed.antt =====
-- eir-svc/src/signals/feed.rs: the bounded "What Eir noticed" list.
pub mod Bounds
pub mod Cleared
use eir.Prelude.{
  ℕ, ◌*◌, Bool, true, false, ◌&&◌, Option, none, some, List, [], ◌∷◌, ◌++◌, any, take, length, ◌==◌,
  if◌then◌else◌,
}
use eir.Prelude.Int.{ℤ, pos, pos_part, neg_part, ◌-ℤ◌, abs, ltb_ℤ}
use eir.Text.{Text, text_eq}

-- eir-proto's SignalView; `at` is in Unix seconds.
pub record SignalView : Type 0 where
  pub at : ℤ
  pub source : Text
  pub app : Text
  pub summary : Text

-- Newest first.
pub record Feed : Type 0 where
  pub items : List SignalView
  pub dismissed : List SignalView

abbrev pub feed_cap : ℕ
feed_cap = 30

abbrev pub repeat_window_secs : ℕ
repeat_window_secs = 10 * 60

unfoldable pub same_text : SignalView → SignalView → Bool
same_text a b = text_eq a.source b.source && text_eq a.app b.app && text_eq a.summary b.summary

-- (a - b).abs() < REPEAT_WINDOW_SECS
unfoldable pub is_near : ℤ → ℤ → Bool
unfolding abs ◌-ℤ◌
is_near a b = ltb_ℤ (abs (a -ℤ b)) (pos repeat_window_secs)

unfoldable pub is_repeat : SignalView → SignalView → Bool
is_repeat listed item = same_text listed item && is_near item.at listed.at

-- a == b
unfoldable pub same_view : SignalView → SignalView → Bool
same_view a b = pos_part a.at == pos_part b.at && neg_part a.at == neg_part b.at && same_text a b

unfoldable pub push_item : SignalView → Feed → Feed
push_item item feed =
    if any (λ listed. is_repeat listed item) (feed.items ++ feed.dismissed)
    then feed
    else record feed { items = take feed_cap (item ∷ feed.items) }

unfoldable pub push : Feed → List SignalView → Feed
push feed [] = feed
push feed (item ∷ items) = push (push_item item feed) items

abbrev pub push_fronts : List SignalView → List SignalView → List SignalView
push_fronts [] dismissed = dismissed
push_fronts (item ∷ items) dismissed = push_fronts items (item ∷ dismissed)

unfoldable pub remember_dismissed : List SignalView → Feed → Feed
remember_dismissed items feed = record feed {
  dismissed = take (feed_cap * 2) (push_fronts items feed.dismissed);
}

unfoldable pub clear : Feed → ℕ × Feed
unfolding remember_dismissed
clear feed = (length feed.items, remember_dismissed feed.items (record feed { items = [] }))

-- The first listed item that equals this one, and the others: `position`, then `remove`.
unfoldable pub remove_first : SignalView → List SignalView → Option (SignalView × List SignalView)
remove_first item [] = none
remove_first item (x ∷ xs) =
    let rest = remove_first item xs in
    if same_view x item
    then some (x, xs)
    else elim rest [ none ↦ none | some (found, others) ↦ some (found, x ∷ others) ]

unfoldable pub dismiss : Feed → SignalView → Bool × Feed
unfolding remember_dismissed
dismiss feed item = elim (remove_first item feed.items) [
  | none ↦ (false, feed)
  | some (removed, others) ↦
      (true, remember_dismissed (removed ∷ []) (record feed { items = others }))
]

pub data Call : Type 0 where
  report : List SignalView → Call
  clear_all : Call
  dismiss_one : SignalView → Call

unfoldable pub step_feed : Feed → Call → Feed
step_feed feed (report items) = push feed items
step_feed feed clear_all = (clear feed).1
step_feed feed (dismiss_one item) = (dismiss feed item).1

unfoldable pub run_feed : Feed → List Call → Feed
run_feed feed [] = feed
run_feed feed (c ∷ cs) = run_feed (step_feed feed c) cs

abbrev pub empty_feed : Feed
empty_feed = record { items = []; dismissed = [] }
