-- ===== src/Windowing/Build/Coverage.antt =====
-- The result of `build_ready_windows` as a whole.
use ai_buddy_app_agent_baken.Base.{
  if-either, ℕ, suc, ◌<◌, ◌≡◌, refl, sym, ap, ◌∙◌, subst, Bool, true, List, [], ◌∷◌, ◌++◌, All, leb,
}
use ai_buddy_app_agent_baken.Windowing.Chunk.{
  Chunk, Lexicon, WindowSettings, useful, sequences, member, sort_chunks, insert_chunk,
}
use ai_buddy_app_agent_baken.Windowing.Prefix.{
  Gapless, reachable_prefix, first_sequence, reachable_prefix-Gapless,
}
use ai_buddy_app_agent_baken.Windowing.Tail.{ordered_unique, unique_from}
use ai_buddy_app_agent_baken.Windowing.Flush.{owned_now}
use ai_buddy_app_agent_baken.Windowing.Build.{
  finish, start, visit_all, windows_of, build_ready_windows,
}
use ai_buddy_app_agent_baken.Windowing.Build.Partition.{
  owned_by, outside-useful, total-finish, owned-finish-final,
}
use ai_buddy_app_agent_baken.Windowing.Build.Loop.{
  Under, Below, Rising, Under-useful, Under-sequences, total-visit_all,
}

Under-insert_chunk :
    (n : ℕ) (c : Chunk) (cs : List Chunk)
    → c.sequence < n
    → Under n cs
    → Under n (insert_chunk c cs)
unfolding insert_chunk
Under-insert_chunk n c [] small h = (small, tt)
Under-insert_chunk n c (d ∷ ds) small h =
    if-either (Under n) (leb c.sequence d.sequence) (c ∷ d ∷ ds) (d ∷ insert_chunk c ds)
      (λ _. (small, h)) (λ _. (h.0, Under-insert_chunk n c ds small h.1))

Under-sort_chunks : (n : ℕ) (cs : List Chunk) → Under n cs → Under n (sort_chunks cs)
unfolding sort_chunks
Under-sort_chunks n [] h = tt
Under-sort_chunks n (c ∷ cs) h =
    Under-insert_chunk n c (sort_chunks cs) h.0 (Under-sort_chunks n cs h.1)

Under-unique_from :
    (n : ℕ) (seen : List ℕ) (cs : List Chunk) → Under n cs → Under n (unique_from seen cs)
unfolding unique_from
Under-unique_from n seen [] h = tt
Under-unique_from n seen (c ∷ cs) h =
    if-either (Under n) (member c.sequence seen) (unique_from seen cs)
      (c ∷ unique_from (c.sequence ∷ seen) cs) (λ _. Under-unique_from n seen cs h.1)
      (λ _. (h.0, Under-unique_from n (c.sequence ∷ seen) cs h.1))

Under-overlap : (n : ℕ) (cs : List Chunk) → Under n cs → Under n (useful (ordered_unique cs))
unfolding ordered_unique
Under-overlap n cs h = Under-useful n _ (Under-unique_from n [] _ (Under-sort_chunks n cs h))

Gapless-Rising :
    (skippable : List ℕ) (n : ℕ) (cs : List Chunk) → Gapless skippable n cs → Rising n cs
Gapless-Rising skippable n [] h = tt
Gapless-Rising skippable n (c ∷ cs) h = (h.0, Gapless-Rising skippable (suc c.sequence) cs h.2)

module _ (lex : Lexicon) (settings : WindowSettings) where
  owned-start : (index : ℕ) (cs : List Chunk) → owned_now (start lex settings index cs) ≡ []
  owned-start index cs = outside-useful cs

  windows_of-partition :
      (chunks : List Chunk) (index n : ℕ) (force_final : Bool) (overlap : List Chunk)
      → Under n overlap
      → Rising n chunks
      → (rest : List ℕ) × (sequences (useful chunks)
          ≡ owned_by (windows_of lex settings chunks index force_final overlap) ++ rest)
        × (force_final ≡ true → rest ≡ [])
  windows_of-partition [] index n force_final overlap under rising = ([], refl, λ _. refl)
  windows_of-partition (c ∷ cs) index n force_final overlap under rising =
      let first = useful (ordered_unique overlap) in
      let s = start lex settings index first in
      let below : Below n s =
        (Under-sequences n first (Under-overlap n overlap under), Under-overlap n overlap under) in
      let s' = visit_all lex settings s (c ∷ cs) in
      (
        owned_now (finish lex settings force_final s'),
        sym (
            total-finish lex settings force_final s'
            ∙ total-visit_all lex settings n s (c ∷ cs) below rising
            ∙ ap (λ l. l ++ sequences (useful (c ∷ cs))) (owned-start index first)),
        λ forced.
            subst (λ b. owned_now (finish lex settings b s') ≡ []) (sym forced)
              (owned-finish-final lex settings s'),
      )

  -- If the overlap lies before the first chunk, the windows own the useful chunks of the reachable
  -- prefix, each once and in order, up to a rest that stays for a later call. A final call leaves
  -- no rest.
  pub build_ready_windows-partition :
      (chunks : List Chunk) (index : ℕ) (force_final : Bool) (overlap : List Chunk)
      (skippable : List ℕ)
      → All (λ (c : Chunk). c.sequence < first_sequence (sort_chunks (sort_chunks chunks))) overlap
      → (rest : List ℕ) × (sequences (useful (reachable_prefix (sort_chunks chunks) skippable))
          ≡ owned_by (build_ready_windows lex settings chunks index force_final overlap skippable)
            ++ rest)
        × (force_final ≡ true → rest ≡ [])
  unfolding build_ready_windows
  build_ready_windows-partition chunks index force_final overlap skippable under =
      windows_of-partition (reachable_prefix (sort_chunks chunks) skippable) index
        (first_sequence (sort_chunks (sort_chunks chunks))) force_final overlap under
        (Gapless-Rising skippable _ _ (reachable_prefix-Gapless (sort_chunks chunks) skippable))
