-- ===== src/Windowing/Build/Partition.antt =====
-- What the windows own, through the closing of a window.
use mathlib.Core.List.{append_assoc, append-nil}
use ai_buddy_app_agent_baken.Base.{
  if-either, ℕ, ◌≡◌, refl, sym, ap, ◌∙◌, Bool, Bool-cases, inl, inr, true, false, not, ◌&&◌, ◌||◌,
  Option, none, some, List, [], ◌∷◌, ◌++◌, All, leb, if◌then◌else◌, arith,
}
use ai_buddy_app_agent_baken.Windowing.Chunk.{
  Chunk, Lexicon, WindowSettings, useful, is_useful_chunk, sequences, member,
}
use ai_buddy_app_agent_baken.Windowing.Tail.{no_chunks}
use ai_buddy_app_agent_baken.Windowing.Flush.{
  CloseReason, BuiltWindow, State, outside, no_numbers, owned_now, owned_exists, tail_of, window_of,
  emptied, closed, flush, forced_final, token_target, sparse_timeout,
}
use ai_buddy_app_agent_baken.Windowing.Build.{close_for, take_pending, close_last, finish, positive}

-- What the finished windows own, in order.
abbrev pub owned_by : List BuiltWindow → List ℕ
owned_by [] = []
owned_by (w ∷ ws) = w.owned ++ owned_by ws

abbrev pub total : State → List ℕ
total s = owned_by s.windows ++ owned_now s

owned_by-append :
    (ws : List BuiltWindow) (w : BuiltWindow) → owned_by (ws ++ w ∷ []) ≡ owned_by ws ++ w.owned
owned_by-append [] w = append-nil w.owned
owned_by-append (v ∷ ws) w =
    ap (λ l. v.owned ++ l) (owned_by-append ws w) ∙ sym (append_assoc v.owned (owned_by ws) w.owned)

abbrev AllIn : List ℕ → List ℕ → Type 0
AllIn ids ns = All (λ n. member n ids ≡ true) ns

pub outside-AllIn : (ids ns : List ℕ) → AllIn ids ns → outside ids ns ≡ []
outside-AllIn ids [] h = refl
outside-AllIn ids (n ∷ ns) h = rw h.0 (outside-AllIn ids ns h.1)

AllIn-cons : (m : ℕ) (ids ns : List ℕ) → AllIn ids ns → AllIn (m ∷ ids) ns
AllIn-cons m ids [] h = tt
AllIn-cons m ids (n ∷ ns) h = (ground (arith, h.0), AllIn-cons m ids ns h.1)

AllIn-useful : (cs : List Chunk) → AllIn (sequences cs) (sequences (useful cs))
AllIn-useful [] = tt
AllIn-useful (c ∷ cs) = elim (Bool-cases (is_useful_chunk c)) [
  | inl yes_useful ↦
      rw yes_useful (ground arith, AllIn-cons c.sequence (sequences cs) _ (AllIn-useful cs))
  | inr not_useful ↦ rw not_useful (AllIn-cons c.sequence (sequences cs) _ (AllIn-useful cs))
]

-- Right after a window is closed nothing in the overlap is owned by the open window.
pub outside-useful : (cs : List Chunk) → outside (sequences cs) (sequences (useful cs)) ≡ []
outside-useful cs = outside-AllIn (sequences cs) (sequences (useful cs)) (AllIn-useful cs)

pub no_chunks-eq : (cs : List Chunk) → no_chunks cs ≡ true → cs ≡ []
no_chunks-eq [] h = refl
no_chunks-eq (c ∷ cs) h = cc

no_numbers-eq : (ns : List ℕ) → no_numbers ns ≡ true → ns ≡ []
no_numbers-eq [] h = refl
no_numbers-eq (n ∷ ns) h = cc

module _ (lex : Lexicon) (settings : WindowSettings) where
  total-closed :
      (reason : CloseReason) (final_partial : Bool) (s : State)
      → total (closed lex settings reason final_partial s) ≡ total s
  total-closed reason final_partial s =
      rw (outside-useful (tail_of lex settings final_partial s), append-nil)
        (owned_by-append s.windows (window_of lex settings reason final_partial s))

  total-emptied :
      (s : State) → no_chunks (useful s.current) ≡ true → total (emptied lex settings s) ≡ total s
  total-emptied s idle = rw (no_chunks-eq (useful s.current) idle) refl

  -- Closing a window keeps the account.
  pub total-flush :
      (reason : CloseReason) (final_partial : Bool) (s : State)
      → total (flush lex settings reason final_partial s) ≡ total s
  unfolding flush
  total-flush reason final_partial s =
      if-either (λ (t : State). total t ≡ total s) (no_chunks (useful s.current))
        (emptied lex settings s)
        (if no_numbers (owned_now s) then s else closed lex settings reason final_partial s)
        (total-emptied s)
        (λ _.
          if-either (λ (t : State). total t ≡ total s) (no_numbers (owned_now s)) s
            (closed lex settings reason final_partial s) (λ _. refl)
            (λ _. total-closed reason final_partial s))

  pub total-close_for :
      (reason : Option CloseReason) (s : State) → total (close_for lex settings reason s) ≡ total s
  total-close_for none s = refl
  total-close_for (some reason) s = total-flush reason false s

  -- A forced close leaves nothing unowned.
  owned-flush-final :
      (reason : CloseReason) (s : State) → owned_now (flush lex settings reason true s) ≡ []
  unfolding flush
  owned-flush-final reason s =
      if-either (λ (t : State). owned_now t ≡ []) (no_chunks (useful s.current))
        (emptied lex settings s)
        (if no_numbers (owned_now s) then s else closed lex settings reason true s) (λ _. refl)
        (λ _.
          if-either (λ (t : State). owned_now t ≡ []) (no_numbers (owned_now s)) s
            (closed lex settings reason true s) (no_numbers-eq (owned_now s)) (λ _. refl))

  total-close_last :
      (force_final : Bool) (s : State) → total (close_last lex settings force_final s) ≡ total s
  total-close_last force_final s =
      if-either (λ (t : State). total t ≡ total s)
        (force_final || leb settings.target s.current_tokens)
        (flush lex settings (if force_final then forced_final else token_target) force_final s)
        (if leb settings.sparse_min_tokens s.current_tokens
            && positive lex settings settings.sparse_max_wall_clock
            && leb settings.sparse_max_wall_clock s.current_wall_clock
          then flush lex settings sparse_timeout false s
          else s)
        (λ _. total-flush _ force_final s)
        (λ _.
          if-either (λ (t : State). total t ≡ total s) _ (flush lex settings sparse_timeout false s)
            s (λ _. total-flush sparse_timeout false s) (λ _. refl))

  pub total-finish :
      (force_final : Bool) (s : State) → total (finish lex settings force_final s) ≡ total s
  unfolding finish
  total-finish force_final s =
      if-either (λ (t : State). total t ≡ total s)
        (not (no_chunks (useful s.current)) && owned_exists s)
        (close_last lex settings force_final (take_pending lex settings s)) s
        (λ _. total-close_last force_final (take_pending lex settings s)) (λ _. refl)

  owned-idle :
      (s : State)
      → (not (no_chunks (useful s.current)) && owned_exists s) ≡ false
      → owned_now s ≡ []
  owned-idle s idle = elim (Bool-cases (no_chunks (useful s.current))) [
    | inl bare ↦ rw (no_chunks-eq (useful s.current) bare) refl
    | inr full ↦ no_numbers-eq (owned_now s) (ground arith)
  ]

  pub owned-finish-final : (s : State) → owned_now (finish lex settings true s) ≡ []
  unfolding finish
  owned-finish-final s =
      if-either (λ (t : State). owned_now t ≡ [])
        (not (no_chunks (useful s.current)) && owned_exists s)
        (close_last lex settings true (take_pending lex settings s)) s
        (λ _. owned-flush-final forced_final (take_pending lex settings s)) (owned-idle s)
