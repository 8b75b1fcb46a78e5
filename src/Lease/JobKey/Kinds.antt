-- ===== src/Lease/JobKey/Kinds.antt =====
-- Every logical key begins with the cleaned type of the job and a bar.
use mathlib.Core.List.{append_assoc}
use ai_buddy_app_agent_baken.Base.{
  ◌≡◌, refl, sym, ap, ◌∙◌, Bool, true, false, List, [], ◌∷◌, ◌++◌, Text, codes, arith,
  if◌then◌else◌,
}
use ai_buddy_app_agent_baken.Lease.Codec.{bar, NoBar, split, split-append-bar}
use ai_buddy_app_agent_baken.Lease.Fields.{text, field_to, field_to-NoBar}
use ai_buddy_app_agent_baken.Lease.JobKey.{
  Event, or_text, or_value, kind_of, with_version, with_redo, with_source, with_generation,
  conversation_key, briefing_key, goal_key, chunk_key, logical_job_key,
}

data HasKind (kind : Text) (key : Text) : Type 0 where
  behind : (rest : Text) → key ≡ kind ++ bar ∷ rest → HasKind kind key

module _ (kind : Text) where
  HasKind-start : (rest : Text) → HasKind kind (kind ++ bar ∷ rest)
  HasKind-start rest = behind rest refl

  HasKind-append : (key more : Text) → HasKind kind key → HasKind kind (key ++ more)
  HasKind-append key more (behind rest e) =
      behind (rest ++ more) (ap (λ k. k ++ more) e ∙ append_assoc kind (bar ∷ rest) more)

  HasKind-if :
      (b : Bool) (x y : Text) → HasKind kind x → HasKind kind y → HasKind kind (if b then x else y)
  HasKind-if true x y hx hy = hx
  HasKind-if false x y hx hy = hy

ruleset kind_rules = (HasKind-start, HasKind-append, HasKind-if)

module _ (kind : Text) (e : Event) where
  with_version-HasKind : (base : Text) → HasKind kind base → HasKind kind (with_version e base)
  unfolding with_version
  with_version-HasKind base h = search kind_rules

  with_redo-HasKind : (base : Text) → HasKind kind base → HasKind kind (with_redo e base)
  unfolding with_redo
  with_redo-HasKind base h = search kind_rules

  with_source-HasKind : (base : Text) → HasKind kind base → HasKind kind (with_source kind e base)
  unfolding with_source
  with_source-HasKind base h = search kind_rules

  with_generation-HasKind :
      (base : Text) → HasKind kind base → HasKind kind (with_generation kind base e)
  unfolding with_generation
  with_generation-HasKind base h =
      with_source-HasKind _ (with_redo-HasKind _ (with_version-HasKind base h))

  briefing_key-HasKind : HasKind kind (briefing_key kind e)
  unfolding briefing_key
  briefing_key-HasKind = search kind_rules depth 7

  goal_key-HasKind : HasKind kind (goal_key kind e)
  unfolding goal_key
  goal_key-HasKind = search kind_rules depth 7

  chunk_key-HasKind : HasKind kind (chunk_key kind e)
  unfolding chunk_key
  chunk_key-HasKind = search kind_rules depth 7

  conversation_key-HasKind : HasKind kind (conversation_key kind e)
  unfolding conversation_key
  conversation_key-HasKind = search (kind_rules, chunk_key-HasKind, with_generation-HasKind) depth 7

pub or_text-NoBar : (a b : Text) → NoBar a → NoBar b → NoBar (or_text a b)
or_text-NoBar [] b ha hb = hb
or_text-NoBar (c ∷ cs) b ha hb = ha

kind_of-NoBar : (e : Event) → NoBar (kind_of e)
unfolding kind_of
kind_of-NoBar e =
    or_text-NoBar (field_to 80 (or_value e.event_type (text (codes "event")))) (codes "event")
      (field_to-NoBar 80 _) (omega arith)

logical_job_key-HasKind : (e : Event) → HasKind (kind_of e) (logical_job_key e)
unfolding logical_job_key
logical_job_key-HasKind e =
    search
      (
        kind_rules, with_generation-HasKind, briefing_key-HasKind, goal_key-HasKind,
        conversation_key-HasKind,
      )
      depth 9

head_part : List Text → Text
head_part [] = []
head_part (p ∷ ps) = p

HasKind-head : (kind key : Text) → NoBar kind → HasKind kind key → head_part (split key) ≡ kind
unfolding head_part
HasKind-head kind key plain (behind rest e) = rw (e, split-append-bar kind rest plain) refl

-- Two events with the same logical key have the same type after cleaning: stripped, line breaks and
-- bars replaced, cut at 80 characters, and `event` for a missing one.
pub same_key_same_kind :
    (a b : Event) → logical_job_key a ≡ logical_job_key b → kind_of a ≡ kind_of b
same_key_same_kind a b e =
    sym (HasKind-head (kind_of a) (logical_job_key a) (kind_of-NoBar a) (logical_job_key-HasKind a))
    ∙ ap (λ k. head_part (split k)) e
    ∙ HasKind-head (kind_of b) (logical_job_key b) (kind_of-NoBar b) (logical_job_key-HasKind b)
