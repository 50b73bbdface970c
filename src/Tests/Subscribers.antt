-- ===== src/Tests/Subscribers.antt =====
-- The theorems on the events that a subscriber gets, at the sample data.
use grok_bot_v.Prelude.{refl, none, some, List, [], ◌∷◌, In, here}
use grok_bot_v.Store.Schema.{Event}
use grok_bot_v.Samples.{the_event}
use grok_bot_v.Events.Follow.{event_batch_size, events_after, follow, reads_again}
use grok_bot_v.Events.Follow.Order.{Ascends, follow-Ascends, events_after_complete}

abbrev second_event : Event
second_event = record the_event { id = 31; seq = 1 }

-- the second event is written between the two reads
abbrev reads : List (List Event)
reads = (the_event ∷ []) ∷ (second_event ∷ the_event ∷ []) ∷ []

follow-Ascends_example : Ascends none (follow 1 none reads)
follow-Ascends_example = follow-Ascends 1 none reads ((refl, tt), ((refl, (refl, tt)), tt))

events_after_complete_example :
    In the_event (events_after 1 none (some event_batch_size) (the_event ∷ second_event ∷ []))
unfolding events_after reads_again
events_after_complete_example =
    events_after_complete 1 none (the_event ∷ second_event ∷ []) the_event refl (here refl) refl tt
