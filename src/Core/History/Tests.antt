-- ===== src/Core/History/Tests.antt =====
-- A history of two samples of at most three bytes.
use open_rtdds.Prelude.{◌≡◌, Option, List, [], ◌∷◌, All, arith}
use open_rtdds.Core.History.{KeepLastHistory, init, push, oldest, newest, no_metadata}
use open_rtdds.Core.History.Invariant.{IsValid, init-IsValid, push-IsValid}
use open_rtdds.Core.History.Refine.{
  Call, push_call, pop_call, IsReadableCall, run, run_entries, run_refines,
}
use open_rtdds.Core.History.Window.{contents, view, first, last}
use open_rtdds.Core.History.Ends.{ends_refine}
use mathlib.Core.Option

abbrev history : KeepLastHistory
history = init 2 3

history-IsValid : IsValid 2 3 history
history-IsValid = init-IsValid (omega arith) (omega arith)

abbrev calls : List Call
calls =
    push_call (Option.some (1 ∷ 2 ∷ [])) 2 no_metadata
    ∷ push_call (Option.some (3 ∷ [])) 1 no_metadata
    ∷ push_call (Option.some (4 ∷ 5 ∷ 6 ∷ [])) 3 no_metadata
    ∷ push_call Option.none 4 no_metadata
    ∷ pop_call
    ∷ []

readable : All IsReadableCall calls
readable = (omega arith, (omega arith, (omega arith, (tt, (tt, tt)))))

run_refines_example : run 2 3 history calls ≡ run_entries 2 3 (contents 2 3 history) calls
run_refines_example = run_refines calls history-IsValid readable

abbrev pushed : KeepLastHistory
pushed = (push 2 3 history (Option.some (1 ∷ 2 ∷ [])) 2 no_metadata).1

ends_refine_example :
    (Option.map view (oldest 3 pushed) ≡ first (contents 2 3 pushed))
    × (Option.map view (newest 2 3 pushed) ≡ last (contents 2 3 pushed))
ends_refine_example =
    ends_refine (push-IsValid (Option.some (1 ∷ 2 ∷ [])) 2 no_metadata history-IsValid)
