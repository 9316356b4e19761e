-- ===== src/Pipeline/Wire.antt =====
-- A reading survives the trip through a message.
use ferret_os.Common.{ℕ, ◌^◌, ◌≤◌, ◌<◌, ◌≡◌, refl, length, arith}
use ferret_os.Pipeline.{Reading, encode, decode, sample}

-- The fields fit their machine words.
pub record IsReading (r : Reading) : Type 0 where
  pub seq_fits : r.seq < 2 ^ 32
  pub release_fits : r.release < 2 ^ 32
  pub raw_fits : r.raw < 2 ^ 16
  pub avg_fits : r.avg < 2 ^ 16
  pub latency_fits : r.latency < 2 ^ 8
  pub misses_fits : r.misses < 2 ^ 8
  pub dropped_fits : r.dropped < 2 ^ 16

pub decode-encode : (r : Reading) → IsReading r → (decode (encode r) ≡ r) × (length (encode r) ≡ 16)
unfolding encode decode
decode-encode r w = (ground arith, refl)

-- A sample of the simulated sensor is at most 1015, so it is never cut to 16 bits.
pub sample-le : (seq noise_state : ℕ) → (sample seq noise_state).0 ≤ 1015
unfolding sample
sample-le seq noise_state = ground arith
