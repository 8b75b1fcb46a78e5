-- ===== src/Migration/Whole.antt =====
-- The whole of migrate_list: no job is lost.
use ai_buddy_app_agent_baken.Base.{
  ℕ, zero, suc, ◌+◌, ◌≤◌, subst, Bool, true, false, Text, max, arith,
}
use ai_buddy_app_agent_baken.Migration.{
  Route, Next, moved, parked, drained, stopped, Ended, completed, raised, LegacyItem, Session,
  go_on, loop, migrate_list,
}
use ai_buddy_app_agent_baken.Migration.Server.{ListServer}
use ai_buddy_app_agent_baken.Migration.Weights.{Apart}
use ai_buddy_app_agent_baken.Migration.Moves.{copies_in, Kept, migrate_one-Kept}

module _ (S : ListServer) where
  module _ (r : Route) (parse : Text → LegacyItem) (apart : Apart r) (event : Text) where
    abbrev pub doubted : Ended → ℕ
    doubted (completed migrated failed) = 0
    doubted raised = 1

    abbrev pub Safe : ℕ → Ended × Session S → Type 0
    Safe before (o, w) =
        (before ≤ copies_in S r parse apart event w.db)
        × (copies_in S r parse apart event w.db ≤ before + doubted o)

    go_on-Safe :
        (rest : ℕ → ℕ → Session S → Ended × Session S) (migrated failed before : ℕ) (n : Next)
        (w : Session S)
        → ((migrated failed : ℕ) (w : Session S)
            → Safe (copies_in S r parse apart event w.db) (rest migrated failed w))
        → Kept S r parse apart event before (n, w)
        → Safe before (go_on S r parse rest migrated failed (n, w))
    go_on-Safe rest migrated failed before moved w ih h =
        subst (λ k. Safe k (rest (suc migrated) failed w)) (omega (arith, h.0, h.1))
          (ih (suc migrated) failed w)
    go_on-Safe rest migrated failed before parked w ih h =
        subst (λ k. Safe k (rest migrated (suc failed) w)) (omega (arith, h.0, h.1))
          (ih migrated (suc failed) w)
    go_on-Safe rest migrated failed before drained w ih h = h
    go_on-Safe rest migrated failed before stopped w ih h = h

    loop-Safe :
        (rounds migrated failed : ℕ) (w : Session S)
        → Safe (copies_in S r parse apart event w.db) (loop S r parse rounds migrated failed w)
    unfolding loop
    loop-Safe zero migrated failed w = (omega arith, omega arith)
    loop-Safe (suc rounds) migrated failed w =
        go_on-Safe (loop S r parse rounds) migrated failed (copies_in S r parse apart event w.db) _
          _ (loop-Safe rounds) (migrate_one-Kept S r parse apart event w)

    -- Whatever happens to the commands, `migrate_list` loses no job: the items of the three lists that
    -- parse to its envelope and the stream's entries that carry it are not fewer than before. They
    -- are as many if it completes, and at most one more if it is interrupted.
    pub migrate_list-Safe :
        (execute : Bool) (limit : ℕ) (w : Session S)
        → Safe (copies_in S r parse apart event w.db) (migrate_list S r parse execute limit w)
    unfolding migrate_list
    migrate_list-Safe true limit w = loop-Safe (max 1 limit) 0 0 w
    migrate_list-Safe false limit w = (omega arith, omega arith)
