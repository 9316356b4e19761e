-- ===== src/Pipeline/Tests.antt =====
-- A sensor in its first turn and a logged reading, as witnesses.
use ferret_os.Common.{ℕ, ◌+◌, ◌≡◌, refl, List, ◌++◌, ok, arith}
use ferret_os.Sys.{LineBuf, done, as_bytes}
use ferret_os.Pipeline.{Reading, Services, Sensor, log_line, text_newline}
use ferret_os.Pipeline.Drift.{sensor_steps, OnTime, sensor_steps-OnTime}
use ferret_os.Pipeline.Lines.{Printed, log_fields, log_line-Printed}

-- A kernel whose clock is its state, and whose calls take one tick.
abbrev clock : Services ℕ
clock = record {
  now = λ s. (s, s + 1);
  sleep = λ ticks s. s + ticks;
  try_send = λ id bytes s. (done tt, s + 1);
  send = λ id bytes s. (done tt, s + 1);
  receive = λ id buf s. (done 16, buf, s + 1);
}

abbrev first : Sensor
first = record { noise = 305419896; seq = 0; misses = 0; dropped = 0; release = 4294967290 }

sensor_steps-OnTime_example : OnTime 4294967290 (0 + 3) (sensor_steps clock 3 (first, 4294967290)).0
sensor_steps-OnTime_example =
    sensor_steps-OnTime clock 4294967290 3 0 first 4294967290
      (record { due = refl; counted = refl; misses_fit = omega arith; dropped_fit = omega arith })

abbrev largest : Reading
largest = record {
  seq = 4294967295;
  release = 4294967295;
  raw = 65535;
  avg = 65535;
  latency = 255;
  misses = 255;
  dropped = 65535;
}

log_line-Printed_example :
    (l : LineBuf) × (text : List ℕ) × (log_line 4294967295 largest ≡ ok l)
    × Printed (log_fields 4294967295 largest) text
    × (as_bytes l ≡ text ++ text_newline)
log_line-Printed_example = log_line-Printed 4294967295 largest (omega arith) (record {
  seq_fits = omega arith;
  release_fits = omega arith;
  raw_fits = omega arith;
  avg_fits = omega arith;
  latency_fits = omega arith;
  misses_fits = omega arith;
  dropped_fits = omega arith;
})
