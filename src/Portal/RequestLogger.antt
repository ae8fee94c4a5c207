-- ===== src/Portal/RequestLogger.antt =====
-- broker/admin.py, `RequestLogger`: a bounded log of requests, in memory.
pub mod History
use remote_llmconnector.Shared.{
  ℕ, String, Bool, true, false, Option, none, some, List, [], ◌∷◌, ◌==◌, truthy, take, select,
  if◌then◌else◌, is_within,
}

pub record RequestLog : Type 0 where
  pub timestamp : ℕ
  pub correlation_id : String
  pub user : Option String
  pub model : String
  pub status : String
  pub duration_ms : ℕ

pub record RequestLogger : Type 0 where
  pub max_logs : ℕ
  pub logs : List RequestLog

abbrev pub init : ℕ → RequestLogger
init max_logs = record { max_logs = max_logs; logs = [] }

-- `appendleft` on a deque of bounded length: what stands beyond the bound falls out on the right.
unfoldable pub log_request : RequestLog → RequestLogger → RequestLogger
log_request entry s = record s { logs = take s.max_logs (entry ∷ s.logs) }

-- The filters of `get_logs`; an empty one is no filter.
pub record Filters : Type 0 where
  pub user : Option String
  pub model : Option String
  pub status : Option String
  pub correlation_id : Option String

abbrev pub given : Option String → Bool
given none = false
given (some s) = truthy s

abbrev pub has_user : Option String → RequestLog → Bool
has_user none entry = false
has_user (some wanted) entry = elim entry.user [ none ↦ false | some u ↦ u == wanted ]

abbrev pub has_model : Option String → RequestLog → Bool
has_model none entry = false
has_model (some wanted) entry = entry.model == wanted

abbrev pub has_status : Option String → RequestLog → Bool
has_status none entry = false
has_status (some wanted) entry = entry.status == wanted

abbrev pub has_correlation_id : Option String → RequestLog → Bool
has_correlation_id none entry = false
has_correlation_id (some wanted) entry = is_within wanted entry.correlation_id

-- `if user: logs = [...]`
abbrev pub narrow :
    (Option String → RequestLog → Bool) → Option String → List RequestLog → List RequestLog
narrow test wanted logs = if given wanted then select (test wanted) logs else logs

unfoldable pub get_logs : Filters → RequestLogger → List RequestLog
unfolding is_within
get_logs f s =
    narrow has_correlation_id f.correlation_id
      (narrow has_status f.status (narrow has_model f.model (narrow has_user f.user s.logs)))
