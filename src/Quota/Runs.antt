-- ===== src/Quota/Runs.antt =====
-- Sequences of calls of the guard, for several keys.
use ai_buddy_app_agent_baken.Base.{
  ℕ, ◌≤◌, ◌≡◌, refl, sym, subst, Bool, Bool-cases, inl, inr, true, false, ◌&&◌, Option, none, some,
  List, [], ◌∷◌, Text, text_eq, text_eq_iff, text_eq_refl, ltb, if-either, if◌then◌else◌, arith,
}
use ai_buddy_app_agent_baken.Quota.{
  ProviderQuota, QuotaWindow, reset_if_new_day, trim_minute, Limit, blocked, count_request,
  reserve_in, Windows, or_new, put, reserve_for, has_tpd, add_tokens, record_actual,
}
use ai_buddy_app_agent_baken.Quota.Trim.{Log}
use ai_buddy_app_agent_baken.Quota.Caps.{
  Tracks, Capped, new_window-Tracks, prepared-Tracks, granted-Tracks, unblocked-Fits,
}

pub data Call : Type 0 where
  reserve : (key : Text) (now tokens : ℕ) → Call
  report : (key : Text) (now estimated actual : ℕ) → Call

abbrev pub time_of : Call → ℕ
time_of (reserve key now tokens) = now
time_of (report key now estimated actual) = now

-- The clock does not go back.
abbrev pub InOrder : ℕ → List Call → Type 0
InOrder last [] = Unit
InOrder last (c ∷ cs) = (last ≤ time_of c) × InOrder (time_of c) cs

abbrev pub is_none {ℓ} : {A : Type ℓ} → Option A → Bool
is_none none = true
is_none (some a) = false

module _ (quota_of : Text → Option ProviderQuota) (k : Text) where
  -- The granted requests for the key `k`.
  abbrev pub logged : Text → ℕ → ℕ → Option Limit → Log → Log
  logged key now tokens refusal log =
      if text_eq k key && is_none refusal then (now, tokens) ∷ log else log

  unfoldable pub step : Call → Windows × Log → Windows × Log
  unfolding reserve_in
  step (reserve key now tokens) (ws, log) =
      let (refusal, ws') = reserve_for (quota_of key) key now tokens ws in
      (ws', logged key now tokens refusal log)
  step (report key now estimated actual) (ws, log) =
      (record_actual (quota_of key) key now estimated actual ws, log)

  unfoldable pub run : List Call → Windows × Log → Windows × Log
  unfolding step
  run [] s = s
  run (c ∷ cs) s = run cs (step c s)

  abbrev pub Known : ℕ → Option QuotaWindow → Log → Type 0
  Known now none log = log ≡ []
  Known now (some w) log = (last : ℕ) × (last ≤ now) × Tracks w last log

  abbrev pub Sound : ProviderQuota → ℕ → Windows × Log → Type 0
  Sound quota now (ws, log) = Known now (ws k) log × Capped quota log

  Known-later :
      (now later : ℕ) (o : Option QuotaWindow) (log : Log)
      → now ≤ later
      → Known now o log
      → Known later o log
  Known-later now later none log le h = h
  Known-later now later (some w) log le h = (h.0, omega (arith, h.1, le), h.2)

  -- The window that `setdefault` gives.
  or_new-Tracks :
      (now : ℕ) (o : Option QuotaWindow) (log : Log)
      → Known now o log
      → (last : ℕ) × (last ≤ now) × Tracks (or_new o now) last log
  or_new-Tracks now none log h = (now, omega arith, rw h (new_window-Tracks now))
  or_new-Tracks now (some w) log h = h

  count_request-Sound :
      (quota : ProviderQuota) (refusal : Option Limit) (w : QuotaWindow) (now tokens : ℕ)
      (log : Log)
      → blocked quota w tokens ≡ refusal
      → Tracks w now log
      → Capped quota log
      → let r = count_request refusal w now tokens in
        let log' = if is_none r.0 then (now, tokens) ∷ log else log in
        Tracks r.1 now log' × Capped quota log'
  count_request-Sound quota none w now tokens log e h capped =
      (granted-Tracks w now tokens log h, (unblocked-Fits quota w now tokens log h e, capped))
  count_request-Sound quota (some limit) w now tokens log e h capped = (h, capped)

  put_self : (w : QuotaWindow) (ws : Windows) → put k w ws k ≡ some w
  put_self w ws = rw (text_eq_refl k) refl

  reserve_own-Sound :
      (quota : ProviderQuota) (now tokens : ℕ) (ws : Windows) (log : Log)
      → quota_of k ≡ some quota
      → Sound quota now (ws, log)
      → Sound quota now (step (reserve k now tokens) (ws, log))
  unfolding step reserve_in
  reserve_own-Sound quota now tokens ws log known h =
      let (last, le, tracks) = or_new-Tracks now (ws k) log h.0 in
      let w = trim_minute (reset_if_new_day (or_new (ws k) now) now) now in
      let settled =
        count_request-Sound quota (blocked quota w tokens) w now tokens log refl
          (prepared-Tracks (or_new (ws k) now) last now log le tracks) h.1 in
      rw (known, text_eq_refl k) ((now, omega arith, settled.0), settled.1)

  reserve_for-other :
      (o : Option ProviderQuota) (key : Text) (now tokens : ℕ) (ws : Windows)
      → text_eq k key ≡ false
      → (reserve_for o key now tokens ws).1 k ≡ ws k
  reserve_for-other none key now tokens ws other = refl
  reserve_for-other (some quota) key now tokens ws other = rw other refl

  reserve-Sound :
      (quota : ProviderQuota) (key : Text) (now tokens : ℕ) (ws : Windows) (log : Log)
      → quota_of k ≡ some quota
      → Sound quota now (ws, log)
      → Sound quota now (step (reserve key now tokens) (ws, log))
  unfolding step
  reserve-Sound quota key now tokens ws log known h = elim (Bool-cases (text_eq k key)) [
    | inl same ↦
        subst (λ (other : Text). Sound quota now (step (reserve other now tokens) (ws, log)))
          ((text_eq_iff k key).0 same) (reserve_own-Sound quota now tokens ws log known h)
    | inr other ↦ rw other (
      subst (λ o. Known now o log) (sym (reserve_for-other (quota_of key) key now tokens ws other))
          h.0,
      h.1,
    )
  ]

  add_tokens-Tracks :
      (w : QuotaWindow) (last delta : ℕ) (log : Log)
      → Tracks w last log
      → Tracks (add_tokens delta w) last log
  add_tokens-Tracks w last delta log h = record {
    on_day = h.on_day;
    in_order = h.in_order;
    minute_kept = h.minute_kept;
    times_kept = h.times_kept;
    day_counted = h.day_counted;
    day_summed = omega (arith, h.day_summed);
  }

  report-Sound :
      (quota : ProviderQuota) (key : Text) (now estimated actual : ℕ) (ws : Windows) (log : Log)
      → Sound quota now (ws, log)
      → Sound quota now (step (report key now estimated actual) (ws, log))
  unfolding step
  report-Sound quota key now estimated actual ws log h =
      if-either (λ (ws' : Windows). Sound quota now (ws', log))
        (has_tpd (quota_of key) && ltb estimated actual) _ ws
        (λ _. elim (Bool-cases (text_eq k key)) [
          | inl same ↦
              let key_is = (text_eq_iff k key).0 same in
              let (last, le, tracks) = or_new-Tracks now (ws k) log h.0 in
              rw (sym key_is, text_eq_refl k)
                ((last, le, add_tokens-Tracks _ last _ log tracks), h.1)
          | inr other ↦ rw other h
        ])
        (λ _. h)

  step-Sound :
      (quota : ProviderQuota) (c : Call) (s : Windows × Log)
      → quota_of k ≡ some quota
      → Sound quota (time_of c) s
      → Sound quota (time_of c) (step c s)
  step-Sound quota (reserve key now tokens) (ws, log) known h =
      reserve-Sound quota key now tokens ws log known h
  step-Sound quota (report key now estimated actual) (ws, log) known h =
      report-Sound quota key now estimated actual ws log h

  run-Sound :
      (quota : ProviderQuota) (last : ℕ) (cs : List Call) (s : Windows × Log)
      → quota_of k ≡ some quota
      → InOrder last cs
      → Sound quota last s
      → Capped quota (run cs s).1
  unfolding run
  run-Sound quota last [] s known in_order h = h.1
  run-Sound quota last (c ∷ cs) s known in_order h =
      run-Sound quota (time_of c) cs (step c s) known in_order.1
        (step-Sound quota c s known (Known-later last (time_of c) (s.0 k) s.1 in_order.0 h.0, h.1))

  -- From an empty guard, with a clock that does not go back: each request that is granted for a key
  -- makes, with those granted before it, at most RPM requests and TPM tokens in its day within the
  -- minute before it, and at most RPD requests and TPD tokens on its day.
  pub grants-Capped :
      (quota : ProviderQuota) (cs : List Call)
      → quota_of k ≡ some quota
      → InOrder 0 cs
      → Capped quota (run cs ((λ key. none), [])).1
  grants-Capped quota cs known in_order =
      run-Sound quota 0 cs ((λ key. none), []) known in_order (refl, tt)
