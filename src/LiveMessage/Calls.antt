-- ===== src/LiveMessage/Calls.antt =====
-- A live message keeps every call of a tool.

use grok_bot_v.Prelude.{ℕ, ◌+◌, List, [], ◌∷◌, length}
use grok_bot_v.LiveMessage.{Step, LiveBlock, text, progress, steps, other}

pub count_steps : List Step → ℕ
count_steps [] = 0
count_steps (s ∷ ss) = s.count + count_steps ss

abbrev pub calls_of : LiveBlock → ℕ
calls_of (text t) = 0
calls_of (progress t names) = length names
calls_of (steps ss) = count_steps ss
calls_of (other kind) = 0

-- The calls of tools that a message shows or holds until a sentence ends.
pub count_calls : List LiveBlock → ℕ
count_calls [] = 0
count_calls (b ∷ bs) = calls_of b + count_calls bs
