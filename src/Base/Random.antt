-- ===== src/Base/Random.antt =====
-- woody/base/base_util.h: `GetRandomByte`. The C library's generator is a parameter: `srand` gives
-- its state for a seed, an `unsigned int`, and `rand` a number and the next state.
use woody.Shared.{ℕ, ◌%◌, ◌^◌, ◌<◌, List, map, arith}
use woody.Base.Endian.{network_to_host_int32}

module _ {G : Type 0} (srand : ℕ → G) (rand : G → ℕ × G) where
  -- `now` is what `time(NULL)` gives.
  unfoldable pub get_random_byte : ℕ → ℕ
  get_random_byte now = (rand (srand (now % 2 ^ 32))).0 % 256

  -- The loop in `ConvertMessageToFrame`, by the time at each of its calls, and the key that the
  -- bytes stand for.
  unfoldable pub random_bytes : List ℕ → List ℕ
  random_bytes times = map get_random_byte times

  unfoldable pub random_key : List ℕ → ℕ
  random_key times = network_to_host_int32 (random_bytes times)

  pub get_random_byte-lt : (now : ℕ) → get_random_byte now < 256
  unfolding get_random_byte
  get_random_byte-lt now = omega arith
