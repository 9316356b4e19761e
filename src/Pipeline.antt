-- ===== src/Pipeline.antt =====
-- kernel/src/demo/pipeline.rs: the readings of the sensor-fusion demonstration, its sensor and filter
-- tasks, and the lines that its logger prints. The calls of the kernel are an interface. The logger's
-- busy waits are left out.
pub mod Wire
pub mod Drift
pub mod Lines
mod Tests
use ferret_os.Common.{
  ℕ, zero, suc, ◌+◌, ◌-◌, ◌*◌, ◌/◌, ◌%◌, ◌^◌, min, Bool, true, false, List, [], ◌∷◌, ◌++◌, set,
  take, get_or, ltb, leb, ◌==◌, if◌then◌else◌, Run, ok, ◌>>=◌, wrapping_add, wrapping_sub,
  is_positive_i32, u32_mod,
}
use ferret_os.Sys.{SysError, would_block, SysResult, done, failed, LineBuf, new_line, str, u32}

abbrev pub period : ℕ
period = 10

abbrev pub deadline : ℕ
deadline = 10

abbrev pub window_size : ℕ
window_size = 4

pub record Reading : Type 0 where
  pub seq : ℕ
  pub release : ℕ
  pub raw : ℕ
  pub avg : ℕ
  pub latency : ℕ
  pub misses : ℕ
  pub dropped : ℕ

-- `to_le_bytes` and `from_le_bytes`
abbrev pub le_bytes_u16 : ℕ → List ℕ
le_bytes_u16 v = v % 256 ∷ v / 2 ^ 8 % 256 ∷ []

abbrev pub le_bytes_u32 : ℕ → List ℕ
le_bytes_u32 v = v % 256 ∷ v / 2 ^ 8 % 256 ∷ v / 2 ^ 16 % 256 ∷ v / 2 ^ 24 % 256 ∷ []

abbrev pub u16_from_le : List ℕ → ℕ → ℕ
u16_from_le b i = get_or b i 0 + 2 ^ 8 * get_or b (i + 1) 0

abbrev pub u32_from_le : List ℕ → ℕ → ℕ
u32_from_le b i =
    get_or b i 0
    + 2 ^ 8 * get_or b (i + 1) 0
    + 2 ^ 16 * get_or b (i + 2) 0
    + 2 ^ 24 * get_or b (i + 3) 0

unfoldable pub encode : Reading → List ℕ
encode r =
    le_bytes_u32 r.seq
    ++ (le_bytes_u32 r.release
        ++ (le_bytes_u16 r.raw
            ++ (le_bytes_u16 r.avg ++ (r.latency ∷ r.misses ∷ le_bytes_u16 r.dropped))))

unfoldable pub decode : List ℕ → Reading
decode b = record {
  seq = u32_from_le b 0;
  release = u32_from_le b 4;
  raw = u16_from_le b 8;
  avg = u16_from_le b 10;
  latency = get_or b 12 0;
  misses = get_or b 13 0;
  dropped = u16_from_le b 14;
}

-- The reading, and the new state of the noise.
unfoldable pub sample : ℕ → ℕ → ℕ × ℕ
sample seq noise_state =
    let phase = seq % 64 in
    let tri = if ltb phase 32 then phase * 1000 / 32 else (64 - phase) * 1000 / 32 in
    let noise_state' = wrapping_add (noise_state * 1664525 % u32_mod) 1013904223 in
    let noise = noise_state' / 2 ^ 16 % 31 in ((tri + noise - 15) % 2 ^ 16, noise_state')

-- The calls that the tasks make. `receive` is given the buffer, and returns what is in it then.
pub record Services (S : Type 0) : Type 0 where
  pub now : S → ℕ × S
  pub sleep : ℕ → S → S
  pub try_send : ℕ → List ℕ → S → SysResult (Unit {0}) × S
  pub send : ℕ → List ℕ → S → SysResult (Unit {0}) × S
  pub receive : ℕ → List ℕ → S → SysResult ℕ × List ℕ × S

-- The variables of `sensor_reader`.
pub record Sensor : Type 0 where
  pub noise : ℕ
  pub seq : ℕ
  pub misses : ℕ
  pub dropped : ℕ
  pub release : ℕ

unfoldable pub is_would_block : SysResult (Unit {0}) → Bool
is_would_block (done u) = false
is_would_block (failed would_block) = true
is_would_block (failed e) = false

-- The variables of `filter`.
pub record Filter : Type 0 where
  pub window : List ℕ
  pub filled : ℕ
  pub buf : List ℕ

unfoldable pub sum : List ℕ → ℕ
sum [] = 0
sum (x ∷ xs) = x + sum xs

-- The body after a successful receive: the reading with its average.
unfoldable pub average : Filter → Reading × Filter
average f =
    let r = decode f.buf in
    let window = set f.window (r.seq % window_size) r.raw in
    let filled = min (f.filled + 1) window_size in
    (
      record r { avg = sum (take filled window) / filled % 2 ^ 16 },
      record { window = window; filled = filled; buf = f.buf },
    )

module _ {S : Type 0} (services : Services S) where
  -- The loop body of `sensor_reader`.
  unfoldable pub sensor_step : Sensor × S → Sensor × S
  sensor_step (x, s₀) =
      let (start, s₁) = services.now s₀ in
      let (raw, noise) = sample x.seq x.noise in
      let reading : Reading = record {
        seq = x.seq;
        release = x.release;
        raw = raw;
        avg = 0;
        latency = min (wrapping_sub start x.release) 255;
        misses = x.misses;
        dropped = x.dropped;
      } in
      let (sent, s₂) = services.try_send 0 (encode reading) s₁ in
      let dropped = if is_would_block sent then min (x.dropped + 1) 65535 else x.dropped in
      let (finish, s₃) = services.now s₂ in
      let misses =
        if leb deadline (wrapping_sub finish x.release) then min (x.misses + 1) 255 else x.misses in
      let release = wrapping_add x.release period in
      let (now, s₄) = services.now s₃ in
      let rest = wrapping_sub release now in
      let s₅ = if is_positive_i32 rest then services.sleep rest s₄ else s₄ in
      (
        record {
          noise = noise;
          seq = wrapping_add x.seq 1;
          misses = misses;
          dropped = dropped;
          release = release;
        },
        s₅,
      )

  -- The loop body of `filter`.
  unfoldable pub filter_step : Filter × S → Filter × S
  filter_step (f, s) =
      let (got, buf, s₁) = services.receive 0 f.buf s in
      let (r, f') = average (record f { buf = buf }) in
      elim got [
        | failed e ↦ (record f { buf = buf }, s₁)
        | done n ↦ (f', (services.send 1 (encode r) s₁).1)
      ]

-- `[LOG] t=`
abbrev pub text_log_t : List ℕ
text_log_t = 91 ∷ 76 ∷ 79 ∷ 71 ∷ 93 ∷ 32 ∷ 116 ∷ 61 ∷ []

-- ` seq=`
abbrev pub text_seq : List ℕ
text_seq = 32 ∷ 115 ∷ 101 ∷ 113 ∷ 61 ∷ []

-- ` release=`
abbrev pub text_release : List ℕ
text_release = 32 ∷ 114 ∷ 101 ∷ 108 ∷ 101 ∷ 97 ∷ 115 ∷ 101 ∷ 61 ∷ []

-- ` raw=`
abbrev pub text_raw : List ℕ
text_raw = 32 ∷ 114 ∷ 97 ∷ 119 ∷ 61 ∷ []

-- ` avg=`
abbrev pub text_avg : List ℕ
text_avg = 32 ∷ 97 ∷ 118 ∷ 103 ∷ 61 ∷ []

-- ` latency=`
abbrev pub text_latency : List ℕ
text_latency = 32 ∷ 108 ∷ 97 ∷ 116 ∷ 101 ∷ 110 ∷ 99 ∷ 121 ∷ 61 ∷ []

-- ` misses=`
abbrev pub text_misses : List ℕ
text_misses = 32 ∷ 109 ∷ 105 ∷ 115 ∷ 115 ∷ 101 ∷ 115 ∷ 61 ∷ []

-- ` dropped=`
abbrev pub text_dropped : List ℕ
text_dropped = 32 ∷ 100 ∷ 114 ∷ 111 ∷ 112 ∷ 112 ∷ 101 ∷ 100 ∷ 61 ∷ []

-- `[LOG] flush start=`
abbrev pub text_flush_start : List ℕ
text_flush_start =
    91 ∷ 76 ∷ 79 ∷ 71 ∷ 93 ∷ 32 ∷ 102 ∷ 108 ∷ 117 ∷ 115 ∷ 104 ∷ 32 ∷ 115 ∷ 116 ∷ 97 ∷ 114 ∷ 116 ∷ 61
    ∷ []

-- ` end=`
abbrev pub text_end : List ℕ
text_end = 32 ∷ 101 ∷ 110 ∷ 100 ∷ 61 ∷ []

-- `[LOG] summary: samples=`
abbrev pub text_summary : List ℕ
text_summary =
    91 ∷ 76 ∷ 79 ∷ 71 ∷ 93 ∷ 32 ∷ 115 ∷ 117 ∷ 109 ∷ 109 ∷ 97 ∷ 114 ∷ 121 ∷ 58 ∷ 32 ∷ 115 ∷ 97 ∷ 109
    ∷ 112 ∷ 108 ∷ 101 ∷ 115 ∷ 61 ∷ []

-- ` max_latency=`
abbrev pub text_max_latency : List ℕ
text_max_latency = 32 ∷ 109 ∷ 97 ∷ 120 ∷ 95 ∷ 108 ∷ 97 ∷ 116 ∷ 101 ∷ 110 ∷ 99 ∷ 121 ∷ 61 ∷ []

-- `\n`
abbrev pub text_newline : List ℕ
text_newline = 10 ∷ []

-- One number of a line, after its label.
unfoldable pub field : LineBuf → List ℕ → ℕ → Run LineBuf
field l label v = u32 (str l label) v

-- The line of `uart_logger` for a reading.
unfoldable pub log_line : ℕ → Reading → Run LineBuf
log_line now r = do
  l₁ ← field (new_line 112) text_log_t now
  l₂ ← field l₁ text_seq r.seq
  l₃ ← field l₂ text_release r.release
  l₄ ← field l₃ text_raw r.raw
  l₅ ← field l₄ text_avg r.avg
  l₆ ← field l₅ text_latency r.latency
  l₇ ← field l₆ text_misses r.misses
  l₈ ← field l₇ text_dropped r.dropped
  ok (str l₈ text_newline)

unfoldable pub flush_line : ℕ → ℕ → Run LineBuf
flush_line start finish = do
  l₁ ← field (new_line 64) text_flush_start start
  l₂ ← field l₁ text_end finish
  ok (str l₂ text_newline)

unfoldable pub summary_line : ℕ → ℕ → Reading → Run LineBuf
summary_line count max_latency r = do
  l₁ ← field (new_line 112) text_summary count
  l₂ ← field l₁ text_max_latency max_latency
  l₃ ← field l₂ text_misses r.misses
  l₄ ← field l₃ text_dropped r.dropped
  ok (str l₄ text_newline)
