-- ===== src/Examples/Times.antt =====
-- Local times that are numbers of seconds.
use eps2probandltf.Common.{ℕ, ◌+◌, ◌*◌, ◌/◌, ◌%◌, ◌≡◌, ◌↔◌, refl}
use eps2probandltf.LocalTime.{
  Clock, CountsSeconds, get_time, get_seconds_since_epoch, get_seconds_since_epoch-get_time,
}

abbrev pub utc : Clock ℕ
utc = record {
  epoch = 0;
  add_hours = λ t n. t + n * 3600;
  add_seconds = λ t n. t + n;
  hours = λ t. t / 3600;
  seconds = λ t. t % 60;
}

utc-CountsSeconds : CountsSeconds utc (λ t. t)
utc-CountsSeconds = record {
  total-epoch = refl;
  total-add_hours = λ t n. refl;
  total-add_seconds = λ t n. refl;
  hours-total = λ t. refl;
  seconds-total = λ t. refl;
}

-- A time at 45 seconds past half past one loses its minutes.
get_seconds_since_epoch-get_time_example :
    (get_seconds_since_epoch utc (get_time utc 5445) ≡ 3645)
    × ((get_seconds_since_epoch utc (get_time utc 5445) ≡ 5445) ↔ (5445 % 3600 / 60 ≡ 0))
get_seconds_since_epoch-get_time_example =
    get_seconds_since_epoch-get_time utc (λ t. t) utc-CountsSeconds 5445
