-- ===== src/Portal/RequestLogger/History.antt =====
-- What the bounded log of broker/admin.py keeps of everything that was logged.
use remote_llmconnector.Shared.{
  String, ℕ, zero, suc, ◌≤◌, Bool, true, Option, ◌&&◌, ◌||◌, not, List, [], ◌∷◌, ◌≡◌, refl, ap, sym,
  ◌∙◌, arith, take, length, select, Bool-cases, inl, inr,
}
use remote_llmconnector.Portal.RequestLogger.{
  RequestLog, RequestLogger, init, log_request, Filters, given, has_user, has_model, has_status,
  has_correlation_id, narrow, get_logs,
}

-- The log without a bound, newest first.
unfoldable pub history : List RequestLog → List RequestLog → List RequestLog
history [] past = past
history (entry ∷ entries) past = history entries (entry ∷ past)

unfoldable pub log_all : List RequestLog → RequestLogger → RequestLogger
unfolding log_request
log_all [] s = s
log_all (entry ∷ entries) s = log_all entries (log_request entry s)

take-take :
    (n : ℕ) (entry : RequestLog) (past : List RequestLog)
    → take n (entry ∷ take n past) ≡ take n (entry ∷ past)
take-take zero entry past = refl
take-take (suc n) entry past = ap (λ l. entry ∷ l) (shorter n past)
  where
    shorter : (n : ℕ) (past : List RequestLog) → take n (take (suc n) past) ≡ take n past
    shorter zero past = refl
    shorter (suc n) [] = refl
    shorter (suc n) (x ∷ past) = ap (λ l. x ∷ l) (shorter n past)

length-take : (n : ℕ) (past : List RequestLog) → length (take n past) ≤ n
length-take zero past = omega arith
length-take (suc n) [] = omega arith
length-take (suc n) (x ∷ past) = omega (arith, length-take n past)

log_all-history :
    (entries past : List RequestLog) (s : RequestLogger)
    → s.logs ≡ take s.max_logs past
    → ((log_all entries s).logs ≡ take s.max_logs (history entries past))
unfolding log_all history log_request
log_all-history [] past s h = h
log_all-history (entry ∷ entries) past s h =
    log_all-history entries (entry ∷ past) (log_request entry s)
      (ap (λ l. take s.max_logs (entry ∷ l)) h ∙ take-take s.max_logs entry past)

-- An entry that every given filter lets through.
abbrev pub passes : (Option String → RequestLog → Bool) → Option String → RequestLog → Bool
passes test wanted entry = not (given wanted) || test wanted entry

abbrev pub matches : Filters → RequestLog → Bool
matches f entry =
    ((passes has_user f.user entry && passes has_model f.model entry)
      && passes has_status f.status entry)
    && passes has_correlation_id f.correlation_id entry

select_all : (logs : List RequestLog) → select (λ _. true) logs ≡ logs
select_all [] = refl
select_all (entry ∷ logs) = ap (λ l. entry ∷ l) (select_all logs)

select_same :
    {p q : RequestLog → Bool} (logs : List RequestLog)
    → ((entry : RequestLog) → p entry ≡ q entry)
    → select p logs ≡ select q logs
select_same [] h = refl
select_same (entry ∷ logs) h = rw (h entry, select_same logs h) refl

narrow-select :
    (test : Option String → RequestLog → Bool) (wanted : Option String) (logs : List RequestLog)
    → narrow test wanted logs ≡ select (passes test wanted) logs
narrow-select test wanted logs = elim (Bool-cases (given wanted)) [
  | inl x ↦ rw x (select_same logs (λ entry. rw x refl))
  | inr x ↦ rw x (sym (select_all logs) ∙ select_same {p = λ _. true} logs (λ entry. rw x refl))
]

select-select :
    (p q : RequestLog → Bool) (logs : List RequestLog)
    → select p (select q logs) ≡ select (λ x. q x && p x) logs
select-select p q [] = refl
select-select p q (entry ∷ logs) = elim (Bool-cases (q entry)) [
  | inl x ↦ elim (Bool-cases (p entry)) [
    | inl y ↦ rw (x, y) (ap (λ l. entry ∷ l) (select-select p q logs))
    | inr y ↦ rw (x, y) (select-select p q logs)
  ]
  | inr x ↦ rw x (select-select p q logs)
]

get_logs-select : (f : Filters) (s : RequestLogger) → get_logs f s ≡ select (matches f) s.logs
unfolding get_logs
get_logs-select f s =
    rw
      (
        narrow-select has_user f.user s.logs,
        narrow-select has_model f.model,
        narrow-select has_status f.status,
        narrow-select has_correlation_id f.correlation_id,
        select-select (passes has_model f.model),
        select-select (passes has_status f.status),
        select-select (passes has_correlation_id f.correlation_id),
      )
      refl

log_all-max_logs :
    (entries : List RequestLog) (s : RequestLogger) → (log_all entries s).max_logs ≡ s.max_logs
unfolding log_all log_request
log_all-max_logs [] s = refl
log_all-max_logs (entry ∷ entries) s = log_all-max_logs entries (log_request entry s)

-- The log refines a log without a bound: whatever was logged, in whatever number, `get_logs` shows
-- of the newest `max_logs` entries, newest first, the ones that pass every filter that is given;
-- and no more than `max_logs` entries are held.
pub get_logs-log_all :
    (entries : List RequestLog) (n : ℕ) (f : Filters)
    → let s = log_all entries (init n) in
      (get_logs f s ≡ select (matches f) (take n (history entries []))) × (length s.logs ≤ n)
get_logs-log_all entries n f =
    let same = log_all-history entries [] (init n) (nothing n) in
    let s = log_all entries (init n) in
    (
      get_logs-select f s ∙ ap (λ l. select (matches f) l) same,
      rw same (length-take n (history entries [])),
    )
  where
    nothing : (n : ℕ) → (init n).logs ≡ take n []
    nothing zero = refl
    nothing (suc n) = refl
