-- ===== src/Quota.antt =====
-- services/llm/quota.py: the guard that counts the requests and tokens of each provider. Times are
-- microseconds since the epoch. A deque is a list with its right end first, so `append` puts in
-- front and `popleft` takes from the end.
pub mod Trim
pub mod Caps
pub mod Runs
mod Examples
use ai_buddy_app_agent_baken.Base.{
  ℕ, suc, ◌+◌, ◌-◌, ◌/◌, Bool, true, false, not, ◌&&◌, Option, none, some, List, [], ◌∷◌, Text,
  text_eq, length, ltb, leb, ◌==◌, if◌then◌else◌,
}

pub record ProviderQuota : Type 0 where
  pub rpm : Option ℕ
  pub rpd : Option ℕ
  pub tpm : Option ℕ
  pub tpd : Option ℕ

pub record QuotaWindow : Type 0 where
  pub minute_requests : List ℕ
  pub minute_tokens : List (ℕ × ℕ)
  pub day : ℕ
  pub day_requests : ℕ
  pub day_tokens : ℕ

abbrev pub minute : ℕ
minute = 60_000_000

abbrev pub date : ℕ → ℕ
date now = now / 86_400_000_000

abbrev pub new_window : ℕ → QuotaWindow
new_window now = record {
  minute_requests = [];
  minute_tokens = [];
  day = date now;
  day_requests = 0;
  day_tokens = 0;
}

unfoldable pub reset_if_new_day : QuotaWindow → ℕ → QuotaWindow
reset_if_new_day w now = if w.day == date now then w else new_window now

abbrev pub nothing {ℓ} : {A : Type ℓ} → List A → Bool
nothing [] = true
nothing (x ∷ xs) = false

-- `while deque and time(deque[0]) < cutoff: deque.popleft()`
pub trim {ℓ} : {A : Type ℓ} → (A → ℕ) → ℕ → List A → List A
trim time cutoff [] = []
trim time cutoff (x ∷ xs) =
    let rest = trim time cutoff xs in if nothing rest && ltb (time x) cutoff then [] else x ∷ rest

abbrev pub stamp : ℕ × ℕ → ℕ
stamp e = e.0

unfoldable pub trim_minute : QuotaWindow → ℕ → QuotaWindow
unfolding trim
trim_minute w now = record w {
  minute_requests = trim (λ t. t) (now - minute) w.minute_requests;
  minute_tokens = trim stamp (now - minute) w.minute_tokens;
}

abbrev pub token_total : List (ℕ × ℕ) → ℕ
token_total [] = 0
token_total (e ∷ es) = e.1 + token_total es

-- `limit is not None and used >= limit`, and the same with `used > limit`
abbrev pub reached : ℕ → Option ℕ → Bool
reached used none = false
reached used (some limit) = leb limit used

abbrev pub exceeds : ℕ → Option ℕ → Bool
exceeds used none = false
exceeds used (some limit) = ltb limit used

pub data Limit : Type 0 where
  rpm_limit rpd_limit tpm_limit tpd_limit : Limit

-- The four tests, in their order.
abbrev pub blocked : ProviderQuota → QuotaWindow → ℕ → Option Limit
blocked quota w tokens =
    if reached (length w.minute_requests) quota.rpm
    then some rpm_limit
    else if reached w.day_requests quota.rpd
    then some rpd_limit
    else if exceeds (token_total w.minute_tokens + tokens) quota.tpm
    then some tpm_limit
    else if exceeds (w.day_tokens + tokens) quota.tpd
    then some tpd_limit
    else none

abbrev pub granted : QuotaWindow → ℕ → ℕ → QuotaWindow
granted w now tokens = record {
  minute_requests = now ∷ w.minute_requests;
  minute_tokens = (now, tokens) ∷ w.minute_tokens;
  day = w.day;
  day_requests = suc w.day_requests;
  day_tokens = w.day_tokens + tokens;
}

abbrev pub count_request : Option Limit → QuotaWindow → ℕ → ℕ → Option Limit × QuotaWindow
count_request none w now tokens = (none, granted w now tokens)
count_request (some limit) w now tokens = (some limit, w)

-- `reserve` on the window of the key; `some` is the error.
unfoldable pub reserve_in : ProviderQuota → QuotaWindow → ℕ → ℕ → Option Limit × QuotaWindow
unfolding reset_if_new_day trim_minute
reserve_in quota w now tokens =
    let w' = trim_minute (reset_if_new_day w now) now in
    count_request (blocked quota w' tokens) w' now tokens

abbrev pub Windows : Type 0
Windows = Text → Option QuotaWindow

-- `setdefault`
abbrev pub or_new : Option QuotaWindow → ℕ → QuotaWindow
or_new none now = new_window now
or_new (some w) now = w

abbrev pub put : Text → QuotaWindow → Windows → Windows
put key w ws other = if text_eq other key then some w else ws other

abbrev pub reserve_for : Option ProviderQuota → Text → ℕ → ℕ → Windows → Option Limit × Windows
reserve_for none key now tokens ws = (none, ws)
reserve_for (some quota) key now tokens ws =
    let (refusal, w) = reserve_in quota (or_new (ws key) now) now tokens in (refusal, put key w ws)

abbrev pub has_tpd : Option ProviderQuota → Bool
has_tpd none = false
has_tpd (some quota) = elim quota.tpd [ none ↦ false | some limit ↦ true ]

abbrev pub add_tokens : ℕ → QuotaWindow → QuotaWindow
add_tokens delta w = record w { day_tokens = w.day_tokens + delta }

-- `record_actual_tokens`
abbrev pub record_actual :
    Option ProviderQuota → Text → (now estimated actual : ℕ) → Windows → Windows
record_actual quota key now estimated actual ws =
    if has_tpd quota && ltb estimated actual
    then put key (add_tokens (actual - estimated) (or_new (ws key) now)) ws
    else ws
