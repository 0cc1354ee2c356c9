-- ===== src/Persistence/Sqlite/Values.antt =====
-- The values of SQLite columns: what is written for a value of the program, and what is read.
use Prim.Native.Nat.{◌/◌}
use radahn.Common.{
  ℕ, suc, ◌+◌, ◌-◌, ◌*◌, ◌≤◌, ◌<◌, ltb, ◌==◌, ℤ, pos, negsuc, ltb_ℤ, ◌≡◌, ◌↔◌, Option, none, some,
  [], ◌∷◌, Str, length, sub64, if◌then◌else◌, ok, err, throw_if, ◌>>=◌, ◌>>◌, arith,
}
use radahn.Domain.Error.{
  Outcome, text_too_large, sql_integer_range, negative_column, lease_before_epoch,
  stored_lease_negative, unexpected_null, unknown_job_state, sleep_duration_range,
  unknown_workload_kind,
}
use radahn.Domain.Id.{WorkerId, make_id, worker}
use radahn.Domain.JobState.{
  JobState, queued, leased, running, retry_wait, cancellation_requested, succeeded, failed,
  cancelled,
}
use radahn.Domain.Workload.{WorkloadKind, WorkloadSpec, sleeping, sleep}

-- The largest values of `std::int64_t` and `int`.
abbrev pub max_int64 : ℕ
max_int64 = 9223372036854775807

abbrev pub max_int : ℕ
max_int = 2147483647

-- Ticks of the system clock, which are nanoseconds, in a millisecond.
abbrev pub ticks_per_ms : ℕ
ticks_per_ms = 1000000

abbrev pub negate : ℕ → ℤ
negate n = if n == 0 then pos 0 else negsuc (n - 1)

-- `duration_cast<milliseconds>`, which rounds towards zero.
unfoldable pub to_ms : ℤ → ℤ
to_ms (pos n) = pos (n / ticks_per_ms)
to_ms (negsuc n) = negate (suc n / ticks_per_ms)

-- `duration_cast<Clock::duration>` of milliseconds.
unfoldable pub from_ms : ℤ → ℤ
from_ms (pos n) = pos (n * ticks_per_ms)
from_ms (negsuc n) = negate (suc n * ticks_per_ms)

-- `static_cast<std::uint64_t>`.
abbrev pub cast_uint64 : ℤ → ℕ
cast_uint64 (pos n) = n
cast_uint64 (negsuc n) = sub64 0 (suc n)

-- What `bind_text` gives to SQLite.
unfoldable pub bind_text : Str → Outcome (Option Str)
bind_text value = do throw_if (ltb max_int (length value)) text_too_large; ok (some value)

-- A text that SQLite hands out ends at its first zero byte.
unfoldable pub c_string : Str → Str
c_string [] = []
c_string (b ∷ bs) = if b == 0 then [] else b ∷ c_string bs

unfoldable pub text_column : Option Str → Outcome Str
text_column none = err unexpected_null
text_column (some text) = ok (c_string text)

unfoldable pub checked_sql_integer : ℕ → Outcome ℤ
checked_sql_integer value = do throw_if (ltb max_int64 value) sql_integer_range; ok (pos value)

unfoldable pub checked_unsigned_column : ℤ → Outcome ℕ
checked_unsigned_column (pos value) = ok value
checked_unsigned_column (negsuc value) = err negative_column

unfoldable pub lease_to_unix_ms : ℤ → Outcome ℤ
lease_to_unix_ms lease_time = do
  throw_if (ltb_ℤ (to_ms lease_time) (pos 0)) lease_before_epoch
  ok (to_ms lease_time)

unfoldable pub lease_from_unix_ms : ℤ → Outcome ℤ
lease_from_unix_ms unix_ms = do
  throw_if (ltb_ℤ unix_ms (pos 0)) stored_lease_negative
  ok (from_ms unix_ms)

unfoldable pub bind_optional_worker_id : Option WorkerId → Outcome (Option Str)
unfolding bind_text
bind_optional_worker_id none = ok none
bind_optional_worker_id (some worker_id) = bind_text worker_id.value

unfoldable pub bind_optional_lease : Option ℤ → Outcome (Option ℤ)
unfolding lease_to_unix_ms
bind_optional_lease none = ok none
bind_optional_lease (some lease) = do ms ← lease_to_unix_ms lease; ok (some ms)

-- Column 11 of a row.
unfoldable pub worker_column : Option Str → Outcome (Option WorkerId)
worker_column none = ok none
worker_column (some text) = do
  value ← text_column (some text)
  id ← make_id worker value
  ok (some id)

-- Column 12 of a row.
unfoldable pub lease_column : Option ℤ → Outcome (Option ℤ)
lease_column none = ok none
lease_column (some unix_ms) = do lease ← lease_from_unix_ms unix_ms; ok (some lease)

unfoldable pub job_state_to_integer : JobState → ℤ
job_state_to_integer queued = pos 1
job_state_to_integer leased = pos 2
job_state_to_integer running = pos 3
job_state_to_integer retry_wait = pos 4
job_state_to_integer cancellation_requested = pos 5
job_state_to_integer succeeded = pos 6
job_state_to_integer failed = pos 7
job_state_to_integer cancelled = pos 8

unfoldable pub job_state_from_integer : ℤ → Outcome JobState
job_state_from_integer (negsuc n) = err unknown_job_state
job_state_from_integer (pos n) =
    if n == 1
    then ok queued
    else if n == 2
    then ok leased
    else if n == 3
    then ok running
    else if n == 4
    then ok retry_wait
    else if n == 5
    then ok cancellation_requested
    else if n == 6
    then ok succeeded
    else if n == 7
    then ok failed
    else if n == 8
    then ok cancelled
    else err unknown_job_state

unfoldable pub workload_kind_to_integer : WorkloadKind → ℤ
workload_kind_to_integer sleeping = pos 1

unfoldable pub workload_from_columns : ℤ → ℕ → Outcome WorkloadSpec
workload_from_columns (negsuc n) sleep_duration_ms = err unknown_workload_kind
workload_from_columns (pos n) sleep_duration_ms =
    if n == 1
    then (throw_if (ltb max_int64 sleep_duration_ms) sleep_duration_range
        >> sleep (pos sleep_duration_ms))
    else err unknown_workload_kind

-- `job_state_from_integer` reads a state out of an integer exactly if `job_state_to_integer`
-- writes that integer for the state.
pub job_state_from_integer_iff :
    (value : ℤ) (state : JobState)
    → (job_state_from_integer value ≡ ok state) ↔ (value ≡ job_state_to_integer state)
unfolding job_state_from_integer job_state_to_integer
job_state_from_integer_iff value state = (λ h. ground arith, λ h. ground arith)

whole : (ms : ℕ) → lease_to_unix_ms (pos (ms * ticks_per_ms)) ≡ ok (pos ms)
unfolding lease_to_unix_ms to_ms
whole ms = let back : ms * ticks_per_ms / ticks_per_ms ≡ ms = omega arith in ground (arith, back)

-- A lease time at or after the epoch is stored as the number of its whole milliseconds, is read
-- back as the last whole millisecond that is not after it, and is the same when stored again.
pub lease_from_unix_ms-lease_to_unix_ms :
    (n : ℕ)
    → (ms : ℕ) × (lease_to_unix_ms (pos n) ≡ ok (pos ms))
      × (lease_from_unix_ms (pos ms) ≡ ok (pos (ms * ticks_per_ms)))
      × (ms * ticks_per_ms ≤ n)
      × (n < ms * ticks_per_ms + ticks_per_ms)
      × (lease_to_unix_ms (pos (ms * ticks_per_ms)) ≡ ok (pos ms))
unfolding lease_to_unix_ms lease_from_unix_ms to_ms from_ms
lease_from_unix_ms-lease_to_unix_ms n = (
  n / ticks_per_ms,
  ground arith,
  ground arith,
  omega arith,
  omega arith,
  whole (n / ticks_per_ms),
)
