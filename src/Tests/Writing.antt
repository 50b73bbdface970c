-- ===== src/Tests/Writing.antt =====
-- The theorems on live messages, at a message that is being written.
use grok_bot_v.Prelude.{◌≡◌, refl, List, [], ◌∷◌, ◌++◌}
use grok_bot_v.Redactor.{Units}
use grok_bot_v.LiveMessage.{
  LiveBlock, text, progress, steps, delta, full, tool, split_tail, live_message_text,
  reduce_live_message_blocks,
}
use grok_bot_v.LiveMessage.Text.{reduce-live_message_text}

-- A sentence that has begun, in which a tool was called.
abbrev begun : List LiveBlock
begun = text (b'A' ∷ b'.' ∷ []) ∷ progress (b'B' ∷ []) ((1 ∷ []) ∷ []) ∷ []

abbrev as_is : Units → Units
as_is name = name

-- When the sentence ends, the call moves to the steps.
flushed :
    reduce_live_message_blocks as_is begun (delta (b'!' ∷ []))
    ≡ text (b'A' ∷ b'.' ∷ b'B' ∷ b'!' ∷ []) ∷ steps (record { label = 1 ∷ []; count = 1 } ∷ []) ∷ []
unfolding reduce_live_message_blocks
flushed = refl

reduce-live_message_text_example :
    (live_message_text (reduce_live_message_blocks as_is begun (delta (b'!' ∷ [])))
      ≡ live_message_text begun ++ b'!' ∷ [])
    × (live_message_text (reduce_live_message_blocks as_is begun (tool (2 ∷ [])))
        ≡ live_message_text begun)
    × (live_message_text (reduce_live_message_blocks as_is begun (full (b'A' ∷ b'.' ∷ b'C' ∷ [])))
        ≡ b'A' ∷ b'.' ∷ b'C' ∷ [])
unfolding split_tail live_message_text
reduce-live_message_text_example =
    reduce-live_message_text as_is begun (b'!' ∷ []) (2 ∷ []) (b'C' ∷ [])
