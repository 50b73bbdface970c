-- ===== src/Tests/Clients.antt =====
-- The theorems on what the clients compute, at small inputs.
use grok_bot_v.Prelude.{
  ◌≡◌, refl, Bool, true, false, none, some, List, [], ◌∷◌, ◌++◌, In, any, count_where, NoClash,
}
use grok_bot_v.RunState.{waiting_input}
use grok_bot_v.Store.Blocks.{ask, pending}
use grok_bot_v.Client.Pages.{MessageId, MessageIdentity, merge_messages_by_id}
use grok_bot_v.Client.Pages.Merge.{clash, merge_messages_by_id_lem}
use grok_bot_v.Client.Sections.{Section, SectionedBot, group_bots_for_sidebar}
use grok_bot_v.Client.Sections.Groups.{all_bots, group_bots_for_sidebar-count}
use grok_bot_v.Client.Asks.{AskSnapshot}

abbrev older : List MessageIdentity
older =
    record { id = MessageId.stored 1; seq = some 1 }
    ∷ record { id = MessageId.stored 2; seq = some 2 }
    ∷ []

abbrev newer : List MessageIdentity
newer =
    record { id = MessageId.stored 2; seq = some 2 }
    ∷ record { id = MessageId.progress "3"; seq = some 3 }
    ∷ []

merge_messages_by_id_lem_example :
    NoClash clash (merge_messages_by_id older newer)
    × ((m : MessageIdentity) → In m (merge_messages_by_id older newer) → In m (older ++ newer))
    × ((m : MessageIdentity)
        → In m (older ++ newer)
        → any (clash m) (merge_messages_by_id older newer) ≡ true)
    × (NoClash clash older
        → (rest : List MessageIdentity) × (merge_messages_by_id older newer ≡ older ++ rest))
merge_messages_by_id_lem_example = merge_messages_by_id_lem older newer

abbrev bots : List SectionedBot
bots =
    record { id = 1; pinned = true; section_id = some 10 }
    ∷ record { id = 2; pinned = false; section_id = some 10 }
    ∷ record { id = 3; pinned = false; section_id = some 99 }
    ∷ []

abbrev sections : List Section
sections = record { id = 10; name = "Work" } ∷ record { id = 11; name = "Home" } ∷ []

abbrev is_pinned : SectionedBot → Bool
is_pinned b = b.pinned

group_bots_for_sidebar-count_example :
    count_where is_pinned (all_bots (group_bots_for_sidebar bots sections))
    ≡ count_where is_pinned bots
group_bots_for_sidebar-count_example =
    group_bots_for_sidebar-count is_pinned bots sections (refl, (refl, tt))

abbrev snapshot : AskSnapshot
snapshot = record {
  messages =
      record {
        id = 20;
        run_id = some 3;
        blocks =
            ask (record {
              text = "Which day?";
              approval_effect_id = none;
              detail = none;
              status = some pending;
              answer = none;
              actions = none;
            })
            ∷ [];
      }
      ∷ [];
  run = some (record { id = 3; status = waiting_input });
  active_runs = none;
}
