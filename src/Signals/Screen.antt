-- ===== src/Signals/Screen.antt =====
-- eir-svc/src/signals/screen.rs: the reports of on-screen errors, bounded and without repeats.
pub mod Bounds
use eir.Prelude.{
  ℕ, ◌+◌, ◌-◌, ◌*◌, Bool, true, false, ◌&&◌, ◌||◌, not, List, [], ◌∷◌, ◌++◌, any, filter, take,
  drop, length, leb, ◌==◌, if◌then◌else◌,
}
use eir.Prelude.Int.{ℤ, pos, ◌-ℤ◌, ltb_ℤ}
use eir.Text.{Text, Unicode, codes, text_eq, is_empty, is_whitespace, split}

pub record ScreenError : Type 0 where
  pub timestamp : ℤ
  pub app : Text
  pub title : Text
  pub text : Text
  pub hung : Bool

abbrev pub max_app_chars : ℕ
max_app_chars = 120

abbrev pub max_title_chars : ℕ
max_title_chars = 200

abbrev pub max_text_chars : ℕ
max_text_chars = 1500

abbrev pub buffer_cap : ℕ
buffer_cap = 20

abbrev pub repeat_window_secs : ℕ
repeat_window_secs = 10 * 60

abbrev pub seen_cap : ℕ
seen_cap = 200

-- char::is_control (the Cc category)
unfoldable pub is_control : ℕ → Bool
is_control c = leb c 0x1f || (leb 0x7f c && leb c 0x9f)

-- One word, as far as the room goes; the state is the text so far and its count.
unfoldable pub push_word : ℕ → Text → Text → Text
push_word max word out = out ++ take (max - length out) word

unfoldable pub clean_words : ℕ → List Text → Text → Text
unfolding push_word
clean_words max [] out = out
clean_words max (word ∷ words) out =
    if is_empty word
    then clean_words max words out
    else if is_empty out
    then clean_words max words (push_word max word out)
    else if leb max (length out)
    then out
    else clean_words max words (push_word max word (out ++ (0x20 ∷ [])))

unfoldable pub clean : Text → ℕ → Text
unfolding clean_words
clean s max_chars = clean_words max_chars (split (λ c. is_whitespace c || is_control c) s) []

-- app.rsplit(['\\', '/']).next().unwrap_or_default()
abbrev last_part : List Text → Text
last_part [] = []
last_part (t ∷ []) = t
last_part (t ∷ u ∷ ts) = last_part (u ∷ ts)

unfoldable pub file_name : Text → Text
file_name app = last_part (split (λ c. c == 0x5c || c == 0x2f) app)

pub data Refusal : Type 0 where
  no_application no_text : Refusal

pub data Normalised : Type 0 where
  accepted : ScreenError → Normalised
  refused : Refusal → Normalised

unfoldable pub normalise : Text → Text → Text → Bool → ℤ → Normalised
normalise app title text hung at =
    let app = clean (file_name app) max_app_chars in
    let title = clean title max_title_chars in
    let text = if hung then [] else clean text max_text_chars in
    if is_empty app
    then refused no_application
    else if not hung && is_empty title && is_empty text
    then refused no_text
    else accepted (record { timestamp = at; app = app; title = title; text = text; hung = hung })

pub record ScreenErrorBuffer : Type 0 where
  pub pending : List ScreenError
  pub seen : List (Text × ℤ)

-- format!("{}|{}|{}|{}", …).to_lowercase()
unfoldable pub repeat_key : Unicode → ScreenError → Text
repeat_key u e = u.to_lowercase (
    e.app
    ++ (0x7c ∷ e.title)
    ++ (0x7c ∷ e.text)
    ++ (0x7c ∷ (if e.hung then codes "true" else codes "false")))

-- A full queue drops its oldest entry before the new one is put at its end.
unfoldable pub push_back {ℓ} : {A : Type ℓ} → ℕ → A → List A → List A
push_back cap x xs = (if leb cap (length xs) then drop 1 xs else xs) ++ (x ∷ [])

unfoldable pub push : Unicode → ScreenErrorBuffer → ScreenError → Bool × ScreenErrorBuffer
push u buffer e =
    let now = e.timestamp in
    let key = repeat_key u e in
    let seen = filter (λ s. ltb_ℤ (now -ℤ s.1) (pos repeat_window_secs)) buffer.seen in
    if any (λ s. text_eq s.0 key) seen then (false, record buffer { seen = seen }) else (
      true,
      record {
        pending = push_back buffer_cap e buffer.pending;
        seen = push_back seen_cap (key, now) seen;
      },
    )

unfoldable pub drain : ScreenErrorBuffer → List ScreenError × ScreenErrorBuffer
drain buffer = (buffer.pending, record buffer { pending = [] })
