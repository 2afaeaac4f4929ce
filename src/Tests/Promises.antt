-- ===== src/Tests/Promises.antt =====
-- One command from its call to its answer, and one that the agent never answers.
use docksight.Base.{ℕ, false, [], ◌∷◌, none, ◌≡◌, refl, ◌<◌, ◌≤◌, ◌+◌, arith}
use docksight.Dict.{empty, get, set}
use docksight.Protocol.Container.{restart}
use docksight.Gateway.State.{Gateway, new_gateway}
use docksight.Gateway.Messages.{buffer}
use docksight.Gateway.Step.{
  Event, connected, registered, command_call, message, timed_out, step, Reach, started, next,
}
use docksight.Gateway.Ledger.{Moves, waiting}
use docksight.Gateway.Ledger.View.{view, slot_in, settled_in}
use docksight.Gateway.Ledger.Refinement.{step-Moves, settled_once, timed_out_settles}
use docksight.Tests.Samples.{numbers, runtime, registration}

abbrev called : Event ℕ
called = command_call "u1" "h1" restart "c1" false "r1"

abbrev run : Event ℕ → Gateway ℕ → Gateway ℕ
run = step numbers runtime

abbrev asked : Gateway ℕ
asked = run called (run (registered 1 registration) (run (connected 1) new_gateway))

abbrev answered : Gateway ℕ
answered = run (message 1 (buffer (123 ∷ [])) 5) asked

asked-Reach : Reach numbers runtime asked
unfolding new_gateway get empty step docksight.Gateway.Handlers.handle_registered
    docksight.Gateway.State.send docksight.Gateway.Step.handle_connection
asked-Reach =
    next (next (next started (connected 1) tt refl) (registered 1 registration) tt refl) called refl
      refl

answered-Reach : Reach numbers runtime answered
answered-Reach = next asked-Reach (message 1 (buffer (123 ∷ [])) 5) tt refl

settled_once_example :
    (0 < answered.next_ticket → settled_in answered.log 0 + waiting (slot_in answered 0) ≡ 1)
    × (answered.next_ticket ≤ 0 → settled_in answered.log 0 ≡ 0)
settled_once_example = settled_once numbers runtime answered 0 answered-Reach

step-Moves_example : Moves (view asked) (view answered)
step-Moves_example =
    step-Moves numbers runtime (message 1 (buffer (123 ∷ [])) 5) asked asked-Reach tt

asked_next : asked.next_ticket ≡ 1
unfolding new_gateway get empty set step docksight.Gateway.Handlers.handle_registered
    docksight.Gateway.State.send docksight.Gateway.State.client_of
    docksight.Gateway.Step.handle_connection docksight.Gateway.Calls.send_container_command
asked_next = refl

timed_out_settles_example :
    (settled_in (run (timed_out 0) asked).log 0 ≡ 1) × (slot_in (run (timed_out 0) asked) 0 ≡ none)
timed_out_settles_example =
    timed_out_settles numbers runtime asked 0 asked-Reach (ground (arith, asked_next))
