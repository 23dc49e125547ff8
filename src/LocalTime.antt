-- ===== src/LocalTime.antt =====
-- localtime.cpp: times as seconds since 1970 and back. The local times are boost's.
use eps2probandltf.Common.{ℕ, ◌+◌, ◌*◌, ◌/◌, ◌%◌, ◌≡◌, ◌↔◌, arith}

-- What the code uses of `local_date_time` and `time_duration`, for times from the epoch on: the epoch
-- itself, the addition of hours and seconds, and the parts of the duration since the epoch.
pub record Clock (Time : Type 0) : Type 0 where
  pub epoch : Time
  pub add_hours : Time → ℕ → Time
  pub add_seconds : Time → ℕ → Time
  pub hours : Time → ℕ
  pub seconds : Time → ℕ

-- The documented behaviour: a time is a number of seconds, `hours()` is the number of whole hours of a
-- duration, and `seconds()` the seconds that its minutes leave.
pub record CountsSeconds {Time : Type 0} (clock : Clock Time) (total : Time → ℕ) : Type 0 where
  pub total-epoch : total clock.epoch ≡ 0
  pub total-add_hours : (t : Time) (n : ℕ) → total (clock.add_hours t n) ≡ total t + n * 3600
  pub total-add_seconds : (t : Time) (n : ℕ) → total (clock.add_seconds t n) ≡ total t + n
  pub hours-total : (t : Time) → clock.hours t ≡ total t / 3600
  pub seconds-total : (t : Time) → clock.seconds t ≡ total t % 60

module _ {Time : Type 0} (clock : Clock Time) where
  -- `get_time`, from the epoch on.
  unfoldable pub get_time : ℕ → Time
  get_time seconds_since_epoch =
      clock.add_seconds (clock.add_hours clock.epoch (seconds_since_epoch / 3600))
        (seconds_since_epoch % 3600)

  -- `get_seconds_since_epoch`.
  unfoldable pub get_seconds_since_epoch : Time → ℕ
  get_seconds_since_epoch t = clock.hours t * 60 * 60 + clock.seconds t

  -- For a clock that counts seconds and a time from the epoch on: the seconds of `get_time(s)` are `s`
  -- without the whole minutes of its last hour, so that they are `s` again exactly if it has none.
  pub get_seconds_since_epoch-get_time :
      (total : Time → ℕ)
      → CountsSeconds clock total
      → (s : ℕ)
      → (get_seconds_since_epoch (get_time s) ≡ s / 3600 * 3600 + s % 60)
        × ((get_seconds_since_epoch (get_time s) ≡ s) ↔ (s % 3600 / 60 ≡ 0))
  unfolding get_time get_seconds_since_epoch
  get_seconds_since_epoch-get_time total c s =
      let t = get_time s in
      let all : total t ≡ s = omega (
        arith,
        c.total-epoch,
        c.total-add_hours clock.epoch (s / 3600),
        c.total-add_seconds (clock.add_hours clock.epoch (s / 3600)) (s % 3600),
      ) in
      let value : get_seconds_since_epoch t ≡ s / 3600 * 3600 + s % 60 =
        omega (arith, all, c.hours-total t, c.seconds-total t) in
      (value, (λ e. omega (arith, value, e), λ e. omega (arith, value, e)))
