-- ===== src/Client/Sections.antt =====
-- packages/core/src/bot-sections.ts: the bots of the sidebar in groups. The identifiers of the
-- sections are compared only, and the titles are texts.
pub mod Groups
use grok_bot_v.Prelude.{
  ℕ, String, Bool, true, false, ◌&&◌, ◌||◌, Option, none, some, List, [], ◌∷◌, ◌++◌, ◌==◌, any,
  keep, if◌then◌else◌, has_value, not,
}
use grok_bot_v.Store.Blocks.{RowId}

pub record Section : Type 0 where
  pub id : RowId
  pub name : String

pub record SectionedBot : Type 0 where
  pub id : RowId
  pub pinned : Bool
  pub section_id : Option RowId

pub data SectionKey : Type 0 where
  pinned unassigned : SectionKey
  section : RowId → SectionKey

pub record BotListSection : Type 0 where
  pub key : SectionKey
  pub title : Option String
  pub bots : List SectionedBot

abbrev pub known_section : List Section → Option RowId → Bool
known_section sections none = false
known_section sections (some id) = any (λ s. s.id == id) sections

-- the three branches of the loop over the bots: the pinned ones, the members of a known section, and
-- the rest
abbrev pub is_pinned : SectionedBot → Bool
is_pinned b = b.pinned

abbrev pub is_member : List Section → RowId → SectionedBot → Bool
is_member sections id b =
    not b.pinned && known_section sections b.section_id && has_value b.section_id id

abbrev pub is_unassigned : List Section → SectionedBot → Bool
is_unassigned sections b = not b.pinned && not (known_section sections b.section_id)

-- a group is listed if it has a bot
abbrev pub listed : SectionKey → Option String → List SectionedBot → List BotListSection
listed key title [] = []
listed key title (b ∷ bs) = record { key = key; title = title; bots = b ∷ bs } ∷ []

abbrev pub has_any {ℓ} : {A : Type ℓ} → List A → Bool
has_any [] = false
has_any (x ∷ xs) = true

abbrev pub group_sections : List SectionedBot → List Section → List Section → List BotListSection
group_sections bots sections [] = []
group_sections bots sections (s ∷ ss) =
    listed (section s.id) (some s.name) (keep (is_member sections s.id) bots)
    ++ group_sections bots sections ss

unfoldable pub group_bots_for_sidebar : List SectionedBot → List Section → List BotListSection
group_bots_for_sidebar bots sections =
    listed pinned (some "Pinned") (keep is_pinned bots)
    ++ (group_sections bots sections sections
        ++ listed unassigned
            (if has_any (keep is_pinned bots) || has_any sections then some "Unassigned" else none)
            (keep (is_unassigned sections) bots))
