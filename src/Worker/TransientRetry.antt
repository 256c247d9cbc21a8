-- ===== src/Worker/TransientRetry.antt =====
-- bf_worker/services/transient_retry.py: which failures are worth another attempt, and the loop of
-- attempts. A delay is in seconds, a number of the errno module is Linux's. The `requests` and `redis`
-- packages are installed.
pub mod Attempts
use dev_harness.Base.{
  ℕ, suc, ◌-◌, min, Bool, true, false, not, ◌&&◌, ◌||◌, Option, none, some, List, [], ◌∷◌, String,
  ℤ, pos, negsuc, ltb, leb, ◌==◌, any, if◌then◌else◌,
}
use dev_harness.Base.Text.{codes, parse_int}

abbrev pub default_retry_delays : List ℕ
default_retry_delays = 1 ∷ 2 ∷ []

abbrev pub retry_after_cap_s : ℕ
retry_after_cap_s = 30

-- The classes that the classifier tells apart. An HTTP error has the status and the Retry-After header
-- of its response, an OS error its errno.
pub data Failure : Type 0 where
  requests_connection requests_timeout chunked_encoding : Failure
  http : Option ℕ → Option String → Failure
  file_not_found permission is_a_directory not_a_directory : Failure
  os : Option ℕ → Failure
  redis_connection redis_timeout redis_busy_loading : Failure
  unknown : Failure

-- EAGAIN, EBUSY, EIO, ENFILE, EMFILE, ENOMEM, ETIMEDOUT
abbrev transient_os_errnos : List ℕ
transient_os_errnos = 11 ∷ 16 ∷ 5 ∷ 23 ∷ 24 ∷ 12 ∷ 110 ∷ []

clamped : Option ℤ → Option ℕ
clamped (some (pos (suc n))) = some (min (suc n) retry_after_cap_s)
clamped _ = none

unfoldable pub parse_retry_after : Option String → Option ℕ
unfolding clamped
parse_retry_after none = none
parse_retry_after (some value) = clamped (parse_int (codes value))

abbrev retriable_status : Option ℕ → Bool
retriable_status none = false
retriable_status (some status) = status == 429 || (leb 500 status && ltb status 600)

abbrev retriable_errno : Option ℕ → Bool
retriable_errno none = false
retriable_errno (some errno) = any (λ e. e == errno) transient_os_errnos

unfoldable pub classify_transient : Failure → Bool × Option ℕ
classify_transient requests_connection = (true, none)
classify_transient requests_timeout = (true, none)
classify_transient chunked_encoding = (true, none)
classify_transient (http status retry_after) =
    if retriable_status status then (true, parse_retry_after retry_after) else (false, none)
classify_transient file_not_found = (false, none)
classify_transient permission = (false, none)
classify_transient is_a_directory = (false, none)
classify_transient not_a_directory = (false, none)
classify_transient (os errno) = (retriable_errno errno, none)
classify_transient redis_connection = (true, none)
classify_transient redis_timeout = (true, none)
classify_transient redis_busy_loading = (true, none)
classify_transient unknown = (false, none)

-- What a call of `fn` does, and what the whole loop does.
pub data Attempt (A : Type 0) : Type 0 where
  value : A → Attempt A
  failure : Failure → Attempt A

pub data Ending (A : Type 0) : Type 0 where
  returned : A → ℕ → Ending A
  raised : Failure → Ending A

abbrev delay_or : Option ℕ → ℕ → ℕ
delay_or none delay = delay
delay_or (some suggested) delay = suggested

module _ {A : Type 0} (fn : ℕ → Attempt A) where
  -- The loop at `i` with the delays from `delays[i]` on: how it ends, and what it sleeps.
  unfoldable pub attempts_from : ℕ → ℕ → List ℕ → Ending A × List ℕ
  attempts_from i retries [] = elim (fn i) [
    | value a ↦ (returned a retries, [])
    | failure e ↦ (raised e, [])
  ]
  attempts_from i retries (delay ∷ delays) =
      let (ending, sleeps) = attempts_from (suc i) (suc retries) delays in
      elim (fn i) [
        | value a ↦ (returned a retries, [])
        | failure e ↦
            let (transient, suggested) = classify_transient e in
            if transient then (ending, delay_or suggested delay ∷ sleeps) else (raised e, [])
      ]

  unfoldable pub with_transient_retry : List ℕ → Ending A × List ℕ
  unfolding attempts_from
  with_transient_retry delays = attempts_from 0 0 delays
