-- ===== src/Client/Asks/Latest.antt =====
-- Which message `latestAnswerableAskMessageId` names.
use grok_bot_v.Prelude.{◌≡◌, true, false, List, ◌∷◌, ◌++◌, any}
use grok_bot_v.Store.Blocks.{RowId}
use grok_bot_v.Client.Asks.{AskMessage, answerable}

-- `m` stands in the list, is answerable, and no message after it is.
abbrev pub Last : List RowId → List AskMessage → AskMessage → Type 0
Last waiting ms m =
    (before : List AskMessage) × (after : List AskMessage) × (ms ≡ before ++ (m ∷ after))
    × (answerable waiting m ≡ true)
    × (any (answerable waiting) after ≡ false)
