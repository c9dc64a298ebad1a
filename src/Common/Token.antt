-- ===== src/Common/Token.antt =====
-- Token amounts in yoctoNEAR, timestamps in nanoseconds, and basis points (common/src/utils.rs,
-- common/src/bps.rs). Amounts are numbers; every operation on them panics past u128.
use house_of_stake_contracts.Base.{
  ℕ, ◌*◌, ◌/◌, ◌==◌, ltb, if◌then◌else◌, Result, ok, panic, ◌>>=◌, u128_add, u128_mul, checked_sub,
  bps_out_of_range,
}

abbrev pub near_add : ℕ → ℕ → Result ℕ
near_add a b = u128_add a b

abbrev pub near_sub : ℕ → ℕ → Result ℕ
near_sub a b = checked_sub a b

abbrev pub nanos_per_second : ℕ
nanos_per_second = 1_000_000_000

abbrev pub yocto_per_millinear : ℕ
yocto_per_millinear = 1_000_000_000_000_000_000_000

abbrev pub truncate_to_seconds : ℕ → ℕ
truncate_to_seconds ns = ns / nanos_per_second * nanos_per_second

abbrev pub truncate_near_to_millis : ℕ → ℕ
truncate_near_to_millis near = near / yocto_per_millinear * yocto_per_millinear

-- `Bps::MAX_RAW`
abbrev pub max_raw : ℕ
max_raw = 10_000

-- `Bps::try_new`, and `Bps::new` by its panic.
unfoldable pub new_bps : ℕ → Result ℕ
new_bps value = if ltb max_raw value then panic bps_out_of_range else ok value

-- `Mul<NearToken> for Bps`
unfoldable pub bps_mul : ℕ → ℕ → Result ℕ
bps_mul bps near =
    if bps == 0
    then ok 0
    else (if bps == max_raw then ok near else do ok ((← u128_mul near bps) / max_raw))
