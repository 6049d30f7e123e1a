-- ===== src/Limiter.antt =====
-- The limiter of open event streams (internal/transport/http/sse.go, streamLimiter): its state, and
-- the two operations that change it, each run under the limiter's mutex. The counters are Go ints,
-- modelled by natural numbers; a decrement of 0 would stay at 0 here.
pub mod Leases
mod Examples
use text.Mathlib.Text.{◌==◌ as str_eq}
use anvilkit_agent_api.Base.{
  ℕ, ◌+◌, ◌-◌, String, Bool, true, false, ◌&&◌, ◌||◌, Option, none, some, List, [], ltb, leb, ◌==◌,
  if◌then◌else◌,
}
use anvilkit_agent_api.Base.Dict.{lookup, insert, erase}

pub record StreamLimiter : Type 0 where
  pub max : ℕ
  pub per_subject : ℕ
  pub total : ℕ
  pub by_subject : List (String × ℕ)

unfoldable pub new_stream_limiter : ℕ → ℕ → StreamLimiter
new_stream_limiter max per_subject = record {
  max = max;
  per_subject = per_subject;
  total = 0;
  by_subject = [];
}

-- Reading a Go map at a missing key gives 0.
abbrev pub or_zero : Option ℕ → ℕ
or_zero none = 0
or_zero (some n) = n

abbrev pub held : StreamLimiter → String → ℕ
held l subject = or_zero (lookup subject l.by_subject)

-- The new limiter, and whether a stream was admitted.
unfoldable pub acquire : StreamLimiter → String → StreamLimiter × Bool
acquire l subject =
    if (ltb 0 l.max && leb l.max l.total)
      || (ltb 0 l.per_subject && leb l.per_subject (held l subject))
    then (l, false)
    else (
      record l {
        total = l.total + 1;
        by_subject = insert subject (held l subject + 1) l.by_subject;
      },
      true,
    )

-- The closure that `acquire` hands out.
unfoldable pub release : StreamLimiter → String → StreamLimiter
release l subject =
    let left = held l subject - 1 in
    let counted = insert subject left l.by_subject in
    record l {
      total = l.total - 1;
      by_subject = if left == 0 then erase subject counted else counted;
    }
