-- ===== src/Tests/SignalRuns.antt =====
-- The feed and the screen reports at concrete items.
use eir.Prelude.{refl, ℕ, true, false, List, [], ◌∷◌, arith, any, length}
use eir.Prelude.Int.{pos}
use eir.Text.{Text, codes}
use eir.Signals.Feed.{SignalView, Feed, empty_feed, report, clear_all, dismiss_one, run_feed}
use eir.Signals.Feed.Bounds.{run_feed-Inv}
use eir.Signals.Screen.{ScreenError, ScreenErrorBuffer}
use eir.Tests.Fixtures.{ascii}
use eir.Signals.LogMemory.{FileMemory, LogCall, start_call, mark_call, sight_call, run_log}
use eir.Signals.LogMemory.Caps.{run_log-Inv}

abbrev item : SignalView
item = record { at = pos 100; source = codes "screen"; app = codes "app"; summary = codes "x" }

abbrev again : SignalView
again = record item { at = pos 160 }

abbrev one_item : Feed
one_item = record { items = item ∷ []; dismissed = [] }

empty_feed-Inv : eir.Signals.Feed.Bounds.Inv empty_feed
empty_feed-Inv = record { bounded = omega arith; remembered = omega arith; distinct = tt }

one_item-Inv : eir.Signals.Feed.Bounds.Inv one_item
unfolding any
one_item-Inv = record { bounded = omega arith; remembered = omega arith; distinct = (refl, tt) }

run_feed-Inv_example :
    eir.Signals.Feed.Bounds.Inv
      (run_feed empty_feed (report (item ∷ again ∷ []) ∷ clear_all ∷ dismiss_one item ∷ []))
run_feed-Inv_example =
    run_feed-Inv empty_feed (report (item ∷ again ∷ []) ∷ clear_all ∷ dismiss_one item ∷ [])
      empty_feed-Inv

abbrev shown : ScreenError
shown = record {
  timestamp = pos 5;
  app = codes "a.exe";
  title = codes "Oh no";
  text = [];
  hung = false;
}

abbrev no_reports : ScreenErrorBuffer
no_reports = record { pending = []; seen = [] }

abbrev later : ScreenError
later = record shown { timestamp = pos 300 }

abbrev length_hash : List Text → ℕ
length_hash tokens = length tokens

abbrev log_calls : List LogCall
log_calls =
    start_call (codes "a.log") 100 64 1
    ∷ mark_call (codes "a.log") 100 1
    ∷ sight_call (codes "a.log") (codes "error 5") 1
    ∷ []

run_log-Inv_example :
    eir.Signals.LogMemory.Caps.Inv (run_log ascii (λ c. true) length_hash [] log_calls)
run_log-Inv_example =
    run_log-Inv ascii (λ c. true) length_hash [] log_calls
      (record { few = omega arith; small = tt })

abbrev read_file : FileMemory
read_file = record { read_to = 40; touched = 0; seen = [] }
