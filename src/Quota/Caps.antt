-- ===== src/Quota/Caps.antt =====
-- Of all granted requests, those of one day and of one minute of it stay within the quota.
use ai_buddy_app_agent_baken.Base.{
  ℕ, suc, ◌+◌, ◌-◌, ◌≤◌, ◌<◌, ◌≡◌, refl, sym, ap, subst, ◌∙◌, Bool-cases, inl, inr, true, false,
  Option, none, some, List, [], ◌∷◌, length, leb, ◌==◌, ==_iff, no-branch, arith,
}
use ai_buddy_app_agent_baken.Quota.{
  ProviderQuota, QuotaWindow, minute, date, new_window, reset_if_new_day, trim, stamp, trim_minute,
  token_total, reached, exceeds, rpm_limit, rpd_limit, tpm_limit, tpd_limit, blocked, granted,
}
use ai_buddy_app_agent_baken.Quota.Trim.{
  Log, Ordered, within, times, Ordered-le, within-new_day, trim-within, trim-times,
}

-- What the window of a key holds, at the time of its last trimming.
pub record Tracks (w : QuotaWindow) (last : ℕ) (log : Log) : Type 0 where
  pub on_day : w.day ≡ date last
  pub in_order : Ordered last log
  pub minute_kept : w.minute_tokens ≡ within w.day (last - minute) log
  pub times_kept : w.minute_requests ≡ times w.minute_tokens
  pub day_counted : w.day_requests ≡ length (within w.day 0 log)
  pub day_summed : token_total (within w.day 0 log) ≤ w.day_tokens

pub new_window-Tracks : (now : ℕ) → Tracks (new_window now) now []
new_window-Tracks now = record {
  on_day = refl;
  in_order = tt;
  minute_kept = refl;
  times_kept = refl;
  day_counted = refl;
  day_summed = omega arith;
}

later_day : (last now : ℕ) → last ≤ now → (date last == date now) ≡ false → date last < date now
later_day last now le other = ground arith

-- After the reset and the trimming the window holds what counts now.
pub prepared-Tracks :
    (w : QuotaWindow) (last now : ℕ) (log : Log)
    → last ≤ now
    → Tracks w last log
    → Tracks (trim_minute (reset_if_new_day w now) now) now log
unfolding trim_minute reset_if_new_day trim
prepared-Tracks w last now log le h = elim (Bool-cases (w.day == date now)) [
  | inl same ↦
      let kept : trim stamp (now - minute) w.minute_tokens ≡ within w.day (now - minute) log =
        rw h.minute_kept (
          trim-within w.day (last - minute) (now - minute) last log h.in_order
            (omega (arith, le))) in
      rw same (record {
        on_day = (==_iff w.day (date now)).0 same;
        in_order = Ordered-le last now log le h.in_order;
        minute_kept = kept;
        times_kept =
            ap (trim (λ (t : ℕ). t) (now - minute)) h.times_kept
            ∙ trim-times (now - minute) w.minute_tokens;
        day_counted = h.day_counted;
        day_summed = h.day_summed;
      })
  | inr other ↦
      let later = later_day last now le (rw (sym h.on_day) other) in
      rw other (record {
        on_day = refl;
        in_order = Ordered-le last now log le h.in_order;
        minute_kept = sym (within-new_day (date now) (now - minute) last log h.in_order later);
        times_kept = refl;
        day_counted = rw (within-new_day (date now) 0 last log h.in_order later) refl;
        day_summed = rw (within-new_day (date now) 0 last log h.in_order later) (omega arith);
      })
]

pub granted-Tracks :
    (w : QuotaWindow) (now tokens : ℕ) (log : Log)
    → Tracks w now log
    → Tracks (granted w now tokens) now ((now, tokens) ∷ log)
granted-Tracks w now tokens log h =
    let today : (date now == w.day) ≡ true = ground (arith, h.on_day) in
    let fits : leb (now - minute) now ≡ true = ground arith in
    let always : leb 0 now ≡ true = ground arith in
    record {
      on_day = h.on_day;
      in_order = (omega arith, h.in_order);
      minute_kept = rw (today, fits) (ap (λ (l : Log). (now, tokens) ∷ l) h.minute_kept);
      times_kept = ap (λ (l : List ℕ). now ∷ l) h.times_kept;
      day_counted = rw (today, always) (ap suc h.day_counted);
      day_summed = rw (today, always) (omega (arith, h.day_summed));
    }

abbrev pub UpTo : ℕ → Option ℕ → Type 0
UpTo n none = Unit
UpTo n (some limit) = n ≤ limit

-- A granted request with those before it: of its day and the minute before it, and of its day.
abbrev pub Fits : ProviderQuota → ℕ × ℕ → Log → Type 0
Fits quota e older =
    UpTo (suc (length (within (date e.0) (e.0 - minute) older))) quota.rpm
    × UpTo (token_total (within (date e.0) (e.0 - minute) older) + e.1) quota.tpm
    × UpTo (suc (length (within (date e.0) 0 older))) quota.rpd
    × UpTo (token_total (within (date e.0) 0 older) + e.1) quota.tpd

abbrev pub Capped : ProviderQuota → Log → Type 0
Capped quota [] = Unit
Capped quota (e ∷ older) = Fits quota e older × Capped quota older

reached-UpTo : (used : ℕ) (limit : Option ℕ) → reached used limit ≡ false → UpTo (suc used) limit
reached-UpTo used none h = tt
reached-UpTo used (some limit) h = ground arith

exceeds-UpTo :
    (less used : ℕ) (limit : Option ℕ) → less ≤ used → exceeds used limit ≡ false → UpTo less limit
exceeds-UpTo less used none le h = tt
exceeds-UpTo less used (some limit) le h = ground arith

length-times : (log : Log) → length (times log) ≡ length log
length-times [] = refl
length-times (e ∷ es) = ap suc (length-times es)

pub unblocked-Fits :
    (quota : ProviderQuota) (w : QuotaWindow) (now tokens : ℕ) (log : Log)
    → Tracks w now log
    → blocked quota w tokens ≡ none
    → Fits quota (now, tokens) log
unblocked-Fits quota w now tokens log h free =
    let requests = no-branch (reached (length w.minute_requests) quota.rpm) rpm_limit _ free in
    let days = no-branch (reached w.day_requests quota.rpd) rpd_limit _ requests.1 in
    let minutes =
      no-branch (exceeds (token_total w.minute_tokens + tokens) quota.tpm) tpm_limit _ days.1 in
    let sums = no-branch (exceeds (w.day_tokens + tokens) quota.tpd) tpd_limit none minutes.1 in
    let counted : length w.minute_requests ≡ length (within (date now) (now - minute) log) =
      rw (sym h.on_day)
        (ap length h.times_kept ∙ length-times w.minute_tokens ∙ ap length h.minute_kept) in
    let summed : token_total w.minute_tokens ≡ token_total (within (date now) (now - minute) log) =
      rw (sym h.on_day) (ap token_total h.minute_kept) in
    (
      subst (λ n. UpTo (suc n) quota.rpm) counted (reached-UpTo _ quota.rpm requests.0),
      subst (λ n. UpTo (n + tokens) quota.tpm) summed
          (exceeds-UpTo _ (token_total w.minute_tokens + tokens) quota.tpm (omega arith) minutes.0),
      rw (sym h.on_day, sym h.day_counted) (reached-UpTo w.day_requests quota.rpd days.0),
      rw (sym h.on_day)
          (exceeds-UpTo _ (w.day_tokens + tokens) quota.tpd (omega (arith, h.day_summed)) sums.0),
    )
