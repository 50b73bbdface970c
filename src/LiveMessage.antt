-- ===== src/LiveMessage.antt =====
-- `reduceLiveMessageBlocks` of packages/core/src/events.ts and what it uses: the blocks of a message
-- that is still being written, as the agent's text and its calls of tools come in. A text is the list
-- of its UTF-16 units. How a tool's name is shown is a parameter.
pub mod Text
pub mod Calls
use grok_bot_v.Prelude.{
  ℕ, zero, suc, ◌+◌, ◌-◌, Bool, true, false, ◌&&◌, ◌||◌, Option, none, some, List, [], ◌∷◌, ◌++◌,
  if◌then◌else◌, ◌==◌, leb, length, drop,
}
use grok_bot_v.Prelude.Text.{is_space}
use grok_bot_v.Redactor.{Units, same_units}

pub record Step : Type 0 where
  pub label : Units
  pub count : ℕ

-- The kinds of block that the reducer looks into, and any other.
pub data LiveBlock : Type 0 where
  text : Units → LiveBlock
  progress : Units → List Units → LiveBlock
  steps : List Step → LiveBlock
  other : ℕ → LiveBlock

-- The payload of a progress event: a delta, or the text as a whole.
pub data LiveMessageUpdate : Type 0 where
  delta : Units → LiveMessageUpdate
  full : Units → LiveMessageUpdate
  tool : Units → LiveMessageUpdate

abbrev pub text_of : LiveBlock → Units
text_of (text t) = t
text_of (progress t names) = t
text_of (steps s) = []
text_of (other kind) = []

unfoldable pub live_message_text : List LiveBlock → Units
live_message_text [] = []
live_message_text (b ∷ bs) = text_of b ++ live_message_text bs

-- The text and the pending tools of a progress block.
pub record Tail : Type 0 where
  pub segments : List LiveBlock
  pub is_progress : Bool
  pub text : Units
  pub pending : List Units

abbrev pub tail_of_one : LiveBlock → Tail
tail_of_one (progress t names) = record {
  segments = [];
  is_progress = true;
  text = t;
  pending = names;
}
tail_of_one b = record { segments = b ∷ []; is_progress = false; text = []; pending = [] }

-- The blocks with a progress block at their end taken off.
unfoldable pub split_tail : List LiveBlock → Tail
split_tail [] = record { segments = []; is_progress = false; text = []; pending = [] }
split_tail (b ∷ []) = tail_of_one b
split_tail (b ∷ c ∷ bs) =
    let rest = split_tail (c ∷ bs) in record rest { segments = b ∷ rest.segments }

abbrev pub is_end : ℕ → Bool
is_end c = c == b'.' || c == b'!' || c == b'?'

-- the quotes and brackets that may close a sentence
abbrev pub is_closer : ℕ → Bool
is_closer c = c == 34 || c == 39 || c == 0x201d || c == 0x2019 || c == b')' || c == b']'

-- For each end of a text: whether only spaces follow, or only closers and then spaces.
abbrev pub all_space : Units → Bool
all_space [] = true
all_space (c ∷ s) = is_space c && all_space s

abbrev pub closes : Units → Bool
closes [] = true
closes (c ∷ s) = all_space (c ∷ s) || is_closer c && closes s

abbrev pub sentence_end : Units → Bool
sentence_end [] = false
sentence_end (c ∷ s) = is_end c && closes s || sentence_end s

unfoldable pub ends_sentence : Units → Bool
ends_sentence s = all_space s || sentence_end s

unfoldable pub append_text : List LiveBlock → Units → List LiveBlock
append_text [] t = text t ∷ []
append_text (text s ∷ []) t = text (s ++ t) ∷ []
append_text (b ∷ []) t = b ∷ text t ∷ []
append_text (b ∷ c ∷ bs) t = b ∷ append_text (c ∷ bs) t

unfoldable pub append_text_segment : List LiveBlock → Units → List LiveBlock
unfolding append_text
append_text_segment segments [] = segments
append_text_segment segments (c ∷ t) = append_text segments (c ∷ t)

unfoldable pub append_step : List Step → Units → List Step
append_step [] label = record { label = label; count = 1 } ∷ []
append_step (s ∷ []) label =
    if same_units s.label label
    then record { label = label; count = s.count + 1 } ∷ []
    else s ∷ record { label = label; count = 1 } ∷ []
append_step (s ∷ t ∷ ss) label = s ∷ append_step (t ∷ ss) label

abbrev pub flushed_length : Tail → Units → ℕ
flushed_length tail prior =
    if tail.is_progress then length prior - length tail.text else length prior

abbrev pub tail_text : Tail → Units → LiveMessageUpdate → Units
tail_text tail prior (delta d) = drop (flushed_length tail prior) (prior ++ d)
tail_text tail prior (full t) = drop (flushed_length tail prior) t
tail_text tail prior (tool name) = if tail.is_progress then tail.text else []

abbrev pub called : LiveMessageUpdate → List Units
called (tool name) = name ∷ []
called _ = []

abbrev pub with_tail : List LiveBlock → Units → List Units → List LiveBlock
with_tail segments [] pending = segments
with_tail segments (c ∷ t) pending = segments ++ progress (c ∷ t) pending ∷ []

abbrev pub is_any : List Units → Bool
is_any [] = false
is_any (name ∷ names) = true

module _ (humanize : Units → Units) where
  abbrev pub append_tool_step : List Step → Units → List Step
  append_tool_step ss name = append_step ss (humanize name)

  unfoldable pub append_tool_call_segment : List LiveBlock → Units → List LiveBlock
  unfolding append_step
  append_tool_call_segment [] name = steps (append_tool_step [] name) ∷ []
  append_tool_call_segment (steps ss ∷ []) name = steps (append_tool_step ss name) ∷ []
  append_tool_call_segment (b ∷ []) name = b ∷ steps (append_tool_step [] name) ∷ []
  append_tool_call_segment (b ∷ c ∷ bs) name = b ∷ append_tool_call_segment (c ∷ bs) name

  unfoldable pub append_calls : List LiveBlock → List Units → List LiveBlock
  unfolding append_tool_call_segment
  append_calls segments [] = segments
  append_calls segments (name ∷ names) = append_calls (append_tool_call_segment segments name) names

  abbrev pub reduce_tail : List LiveBlock → Units → List Units → List LiveBlock
  reduce_tail segments t pending =
      if is_any pending && ends_sentence t
      then append_calls (append_text_segment segments t) pending
      else with_tail segments t pending

  unfoldable pub reduce_live_message_blocks : List LiveBlock → LiveMessageUpdate → List LiveBlock
  unfolding split_tail append_calls append_text_segment ends_sentence live_message_text
  reduce_live_message_blocks blocks update =
      let tail = split_tail blocks in
      reduce_tail tail.segments (tail_text tail (live_message_text blocks) update)
        (tail.pending ++ called update)
