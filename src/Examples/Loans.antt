-- ===== src/Examples/Loans.antt =====
-- Runs of the handle container of code/aws/curl/HandleContainer.cpp.
use lab_cpp.Base.{◌+◌, ◌≡◌, Option-cases, none, some, inl, inr, List, [], ◌∷◌}
use lab_cpp.Base.Text.{codes}
use lab_cpp.Curl.Handles.{
  Pool, initial, Action, acquire_for, release_for, next, Reach, begin, later,
}
use lab_cpp.Curl.Handles.Conservation.{loans, cached, handles_conserved}

-- The state after a list of actions; the first that is not possible ends it.
unfoldable after : List Action → Pool → Pool
unfolding next
after [] p = p
after (a ∷ actions) p = elim (next a p) [ none ↦ p | some q ↦ after actions q ]

replay : (actions : List Action) (p : Pool) → Reach p → Reach (after actions p)
unfolding after
replay [] p reach = reach
replay (a ∷ actions) p reach = elim (Option-cases (next a p)) [
  | inl e ↦ rw (e, after) reach
  | inr (q, e) ↦ rw (e, after) (replay actions q (later reach a e))
]

-- Two handles for one domain, of which one has come back.
abbrev lent : List Action
lent =
    acquire_for (some 11) (some 1) (codes "s3")
    ∷ acquire_for (some 12) (some 2) (codes "s3")
    ∷ release_for (codes "s3") 11
    ∷ []

handles_conserved_example :
    loans (codes "s3") 11 (after lent initial).opened
    ≡ cached (codes "s3") 11 (after lent initial).cache
      + loans (codes "s3") 11 (after lent initial).borrowed
      + loans (codes "s3") 11 (after lent initial).destroyed
handles_conserved_example = handles_conserved (replay lent initial begin) (codes "s3") 11
