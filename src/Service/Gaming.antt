-- ===== src/Service/Gaming.antt =====
-- eir-svc/src/main.rs: Game Mode, a manual latch and an automatic lease, and what waits for it.
use eir.Prelude.{
  ◌≡◌, ◌≢◌, refl, Bool, true, false, ◌&&◌, ◌||◌, not, arith, ◌-◌, ◌^◌, ◌==◌, if◌then◌else◌, is_nil,
}
use eir.Prelude.Int.{ℤ, pos, negsuc, pos_part, neg_part, ◌+ℤ◌, ◌-ℤ◌, ltb_ℤ, ◌≤ℤ◌}
use eir.Service.{SvcState}

abbrev max_i64 : ℤ
max_i64 = pos (2 ^ 63 - 1)

abbrev min_i64 : ℤ
min_i64 = negsuc (2 ^ 63 - 1)

unfoldable pub saturate : ℤ → ℤ
saturate a = if ltb_ℤ max_i64 a then max_i64 else if ltb_ℤ a min_i64 then min_i64 else a

unfoldable pub is_gaming_at : {S R : Type 0} → SvcState S R → ℤ → Bool
is_gaming_at st now = st.gaming_manual || ltb_ℤ now st.gaming_until

unfoldable pub apply_set_gaming : {S R : Type 0} → SvcState S R → Bool → Bool → ℤ → ℤ → SvcState S R
apply_set_gaming st on true now lease_secs = record st {
  gaming_manual = on;
  gaming_until = if on then st.gaming_until else pos 0;
}
apply_set_gaming st on false now lease_secs = record st {
  gaming_until = if on then saturate (now +ℤ lease_secs) else pos 0;
}

-- The interval has passed, or no cycle ever ran.
unfoldable pub interval_elapsed : ℤ → ℤ → ℤ → Bool
interval_elapsed interval_secs last_run now =
    (pos_part last_run == 0 && neg_part last_run == 0)
    || not (ltb_ℤ (saturate (now -ℤ last_run)) interval_secs)

unfoldable pub updater_due : {S R : Type 0} → Bool → ℤ → ℤ → SvcState S R → ℤ → Bool
updater_due enabled interval_secs last_run st now =
    enabled
    && not st.paused
    && not st.updater_running
    && not (is_gaming_at st now)
    && interval_elapsed interval_secs last_run now

pub data Resting : Type 0 where
  is_paused gaming pending_approval executing active : Resting

unfoldable pub resting_status : {S R : Type 0} → SvcState S R → ℤ → Resting
resting_status st now =
    if st.paused
    then is_paused
    else if is_gaming_at st now
    then gaming
    else if not (is_nil st.pending)
    then pending_approval
    else if not (is_nil st.in_flight)
    then executing
    else active

-- The user's click decides at once: after a manual switch to `on` Game Mode is on exactly if `on`,
-- whatever lease the detector held, at any time from the epoch.
pub set_gaming-manual :
    {S R : Type 0} (st : SvcState S R) (on : Bool) (now later lease_secs : ℤ)
    → pos 0 ≤ℤ later
    → is_gaming_at (apply_set_gaming st on true now lease_secs) later ≡ on
unfolding is_gaming_at apply_set_gaming
set_gaming-manual st true now later lease_secs h = refl
set_gaming-manual st false now later lease_secs h = ground arith

saturate-id : (a : ℤ) → a ≤ℤ max_i64 → min_i64 ≤ℤ a → saturate a ≡ a
unfolding saturate
saturate-id a h k = ground arith

-- The detector's lease alone keeps Game Mode on for exactly its length after the last report: at a
-- later time it is on if and only if the lease, which saturates at the end of i64, is not over.
pub set_gaming-lease :
    {S R : Type 0} (st : SvcState S R) (now later lease_secs : ℤ)
    → st.gaming_manual ≡ false
    → now +ℤ lease_secs ≤ℤ max_i64
    → min_i64 ≤ℤ now +ℤ lease_secs
    → is_gaming_at (apply_set_gaming st true false now lease_secs) later
      ≡ ltb_ℤ later (now +ℤ lease_secs)
unfolding is_gaming_at apply_set_gaming
set_gaming-lease st now later lease_secs m h k =
    rw m (rw (saturate-id (now +ℤ lease_secs) h k) refl)

-- While no Game Mode, pause or running cycle holds it back, a scheduled cycle is due; and whenever
-- one is due, the service rests in none of those states.
pub updater_due-resting :
    {S R : Type 0} (enabled : Bool) (interval_secs last_run : ℤ) (st : SvcState S R) (now : ℤ)
    → updater_due enabled interval_secs last_run st now ≡ true
    → (resting_status st now ≢ is_paused)
      × (resting_status st now ≢ gaming)
      × (st.updater_running ≡ false)
unfolding updater_due resting_status
updater_due-resting enabled interval_secs last_run st now h = ground arith
