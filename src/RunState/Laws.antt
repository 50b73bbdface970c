-- ===== src/RunState/Laws.antt =====
-- The transition table of packages/core/src/run-state.ts as a graph.
use grok_bot_v.Prelude.{◌≡◌, refl, ◌≢◌, ◌↔◌, true, not, arith}
use grok_bot_v.RunState.{
  RunStatus, queued, leased, running, waiting_input, waiting_takeover, completed, failed, cancelled,
  can_transition, is_active, is_terminal,
}

-- A state that the table reaches in one or more steps.
pub data Reaches (s : RunStatus) : RunStatus → Type 0 where
  step : {t : RunStatus} → can_transition s t ≡ true → Reaches s t
  more : {t u : RunStatus} → Reaches s t → can_transition t u ≡ true → Reaches s u

-- Every state is active or terminal, and none is both.
pub is_active-not-is_terminal : (s : RunStatus) → is_active s ≡ not (is_terminal s)
unfolding is_active is_terminal
is_active-not-is_terminal s = ground arith

-- A state can be cancelled at once exactly when it is active.
pub can_transition-cancelled : (s : RunStatus) → can_transition s cancelled ≡ is_active s
unfolding can_transition is_active
can_transition-cancelled s = ground arith

final : (s t : RunStatus) → can_transition s t ≡ true → (s ≢ completed) × (s ≢ cancelled)
unfolding can_transition
final s t e = ground arith

Reaches-final : {s t : RunStatus} → Reaches s t → (s ≢ completed) × (s ≢ cancelled)
Reaches-final (step {t} e) = final _ t e
Reaches-final (more r e) = Reaches-final r

cancel_path : (s : RunStatus) → s ≢ completed → s ≢ cancelled → Reaches s cancelled
unfolding can_transition
cancel_path queued p q = step refl
cancel_path leased p q = step refl
cancel_path running p q = step refl
cancel_path waiting_input p q = step refl
cancel_path waiting_takeover p q = step refl
cancel_path completed p q = absurd (p refl)
cancel_path failed p q = more (step {t = queued} refl) refl
cancel_path cancelled p q = absurd (q refl)

-- The transition table leads from a state to `cancelled`, in one or more steps, exactly when the
-- state is neither `completed` nor `cancelled`; no step at all leaves those two.
pub Reaches-cancelled_iff :
    (s : RunStatus)
    → (Reaches s cancelled ↔ ((s ≢ completed) × (s ≢ cancelled)))
      × ((t : RunStatus) → Reaches s t → (s ≢ completed) × (s ≢ cancelled))
Reaches-cancelled_iff s = ((Reaches-final, λ h. cancel_path s h.0 h.1), λ t. Reaches-final)
