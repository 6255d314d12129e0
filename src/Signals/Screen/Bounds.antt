-- ===== src/Signals/Screen/Bounds.antt =====
-- The bounds on the untrusted text and on the two queues.
use eir.Prelude.{
  ℕ, ◌+◌, ◌-◌, ◌≤◌, ◌≡◌, refl, Bool, true, false, ◌&&◌, not, List, [], ◌∷◌, ◌++◌, any, filter, take,
  drop, length, length-append, length-filter, length-take, length-drop, arith, leb, if◌then◌else◌,
  if-elim,
}
use eir.Prelude.Int.{ℤ, pos, ◌-ℤ◌, ltb_ℤ}
use eir.Text.{Text, Unicode, is_empty, text_eq}
use eir.Text.Laws.{text_eq_refl}
use eir.Signals.Screen.{
  ScreenError, ScreenErrorBuffer, clean_words, clean, push_word, normalise, accepted, refused,
  no_application, no_text, file_name, push_back, push, repeat_key, buffer_cap, seen_cap,
  repeat_window_secs, max_app_chars, max_title_chars, max_text_chars,
}

length-push_word :
    (max : ℕ) (word out : Text) → length out ≤ max → length (push_word max word out) ≤ max
unfolding push_word
length-push_word max word out h = omega (
  arith,
  h,
  length-append out (take (max - length out) word),
  length-take (max - length out) word,
)

clean_words-length :
    (max : ℕ) (words : List Text) (out : Text)
    → length out ≤ max
    → length (clean_words max words out) ≤ max
unfolding clean_words
clean_words-length max [] out h = h
clean_words-length max (word ∷ words) out h =
    let Bounded = λ (t : Text). length t ≤ max in
    if-elim Bounded (is_empty word) _ _ (λ e. clean_words-length max words out h)
      λ e.
        if-elim Bounded (is_empty out) _ _
          (λ f.
            clean_words-length max words (push_word max word out) (length-push_word max word out h))
          λ f.
            if-elim Bounded (leb max (length out)) _ _ (λ g. h)
              λ g.
                let room : length out + 1 ≤ max = ground arith in
                clean_words-length max words (push_word max word (out ++ (0x20 ∷ []))) (
                  length-push_word max word (out ++ (0x20 ∷ []))
                    (omega (arith, room, length-append out (0x20 ∷ []))))

length-clean : (s : Text) (max : ℕ) → length (clean s max) ≤ max
unfolding clean
length-clean s max = clean_words-length max _ [] (omega arith)

-- What a report may be once accepted.
abbrev pub IsBounded : ScreenError → Type 0
IsBounded e =
    (length e.app ≤ max_app_chars)
    × (length e.title ≤ max_title_chars)
    × (length e.text ≤ max_text_chars)
    × (is_empty e.app ≡ false)
    × (not e.hung && is_empty e.title && is_empty e.text ≡ false)

-- An accepted report has a non-empty application name of at most 120 characters, a title of at
-- most 200 and a text of at most 1500, and says something unless it reports a hung window.
pub normalise-IsBounded :
    (app title text : Text) (hung : Bool) (at : ℤ) (e : ScreenError)
    → normalise app title text hung at ≡ accepted e
    → IsBounded e
unfolding normalise
normalise-IsBounded app title text hung at e h =
    go (clean (file_name app) max_app_chars) (clean title max_title_chars)
      (if hung then [] else clean text max_text_chars) (length-clean (file_name app) max_app_chars)
      (length-clean title max_title_chars)
      (if-elim (λ (t : Text). length t ≤ max_text_chars) hung _ _ (λ e. omega arith)
        (λ e. length-clean text max_text_chars))
      h
  where
    go :
        (a t x : Text)
        → length a ≤ max_app_chars
        → length t ≤ max_title_chars
        → length x ≤ max_text_chars
        → (if is_empty a
            then refused no_application
            else if not hung && is_empty t && is_empty x
            then refused no_text
            else accepted (record { timestamp = at; app = a; title = t; text = x; hung = hung }))
          ≡ accepted e
        → IsBounded e
    go a t x p q r h = ground arith

pub record Inv (buffer : ScreenErrorBuffer) : Type 0 where
  pub pending : length buffer.pending ≤ buffer_cap
  pub seen : length buffer.seen ≤ seen_cap

length-push_back :
    {A : Type 0} (cap : ℕ) (x : A) (xs : List A)
    → 1 ≤ cap
    → length xs ≤ cap
    → length (push_back cap x xs) ≤ cap
unfolding push_back
length-push_back cap x xs c h =
    ground (arith, length-append xs (x ∷ []), length-append (drop 1 xs) (x ∷ []), length-drop 1 xs)

-- A report leaves at most 20 waiting and at most 200 remembered, if there were no more before.
pub screen_push-Inv :
    (u : Unicode) (buffer : ScreenErrorBuffer) (e : ScreenError)
    → Inv buffer
    → Inv (push u buffer e).1
unfolding push
screen_push-Inv u buffer e v =
    let live = λ (s : Text × ℤ). ltb_ℤ (e.timestamp -ℤ s.1) (pos repeat_window_secs) in
    let seen = filter live buffer.seen in
    let fewer : length seen ≤ seen_cap = omega (arith, v.seen, length-filter live buffer.seen) in
    if-elim (λ (r : Bool × ScreenErrorBuffer). Inv r.1)
      (any (λ s. text_eq s.0 (repeat_key u e)) seen) _ _
      (λ b. record { pending = v.pending; seen = fewer })
      (λ b. record {
        pending = length-push_back buffer_cap e buffer.pending (omega arith) v.pending;
        seen = length-push_back seen_cap (repeat_key u e, e.timestamp) seen (omega arith) fewer;
      })

any-filter_snoc :
    {A : Type 0} (p q : A → Bool) (xs : List A) (x : A)
    → q x ≡ true
    → p x ≡ true
    → any p (filter q (xs ++ (x ∷ []))) ≡ true
unfolding any filter
any-filter_snoc p q [] x e f = rw e (rw f refl)
any-filter_snoc p q (y ∷ xs) x e f = ground (arith, any-filter_snoc p q xs x e f)

-- What is queued stands last among the recent ones.
push-seen :
    (u : Unicode) (buffer : ScreenErrorBuffer) (e : ScreenError)
    → (push u buffer e).0 ≡ true
    → (ys : List (Text × ℤ)) × ((push u buffer e).1.seen
        ≡ ys ++ ((repeat_key u e, e.timestamp) ∷ []))
unfolding push push_back
push-seen u buffer e =
    let seen = filter (λ s. ltb_ℤ (e.timestamp -ℤ s.1) (pos repeat_window_secs)) buffer.seen in
    if-elim
      (λ (r : Bool × ScreenErrorBuffer).
        r.0 ≡ true
        → (ys : List (Text × ℤ)) × (r.1.seen ≡ ys ++ ((repeat_key u e, e.timestamp) ∷ [])))
      (any (λ s. text_eq s.0 (repeat_key u e)) seen) _ _ (λ b q. cc) (λ b q. (_, refl))

push-refused :
    (u : Unicode) (buffer : ScreenErrorBuffer) (f : ScreenError)
    → any
        (λ s. text_eq s.0 (repeat_key u f))
        (filter (λ s. ltb_ℤ (f.timestamp -ℤ s.1) (pos repeat_window_secs)) buffer.seen)
      ≡ true
    → ((push u buffer f).0 ≡ false) × ((push u buffer f).1.pending ≡ buffer.pending)
unfolding push
push-refused u buffer f e = rw e (refl, refl)

-- An error just queued is refused when it is reported again within the window, and nothing then
-- changes in what waits for the next cycle.
pub push-repeat :
    (u : Unicode) (buffer : ScreenErrorBuffer) (e f : ScreenError)
    → (push u buffer e).0 ≡ true
    → repeat_key u f ≡ repeat_key u e
    → ltb_ℤ (f.timestamp -ℤ e.timestamp) (pos repeat_window_secs) ≡ true
    → let after = (push u buffer e).1 in
      ((push u after f).0 ≡ false) × ((push u after f).1.pending ≡ after.pending)
push-repeat u buffer e f q k w =
    let (ys, s) = push-seen u buffer e q in
    push-refused u (push u buffer e).1 f (
      rw s (
        any-filter_snoc (λ s. text_eq s.0 (repeat_key u f))
          (λ s. ltb_ℤ (f.timestamp -ℤ s.1) (pos repeat_window_secs)) ys
          (repeat_key u e, e.timestamp) w (rw k (text_eq_refl (repeat_key u e)))))
