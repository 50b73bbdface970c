-- ===== src/Client/Sections/Groups.antt =====
-- The groups of the sidebar hold the bots they were built from.
use grok_bot_v.Prelude.{
  ◌+◌, ◌≡◌, refl, sym, Bool, false, not, ◌&&◌, ◌||◌, Option, none, some, String, List, [], ◌∷◌,
  ◌++◌, arith, ◌==◌, any, keep, count_where, NoClash, if◌then◌else◌, Bool-cases, Option-cases, inl,
  inr,
}
use grok_bot_v.Store.Blocks.{RowId}
use grok_bot_v.Client.Sections.{
  Section, SectionedBot, SectionKey, BotListSection, known_section, is_pinned, is_member,
  is_unassigned, listed, group_sections, group_bots_for_sidebar, has_any, pinned, unassigned,
}

-- The bots of all groups, one group after the other.
abbrev pub all_bots : List BotListSection → List SectionedBot
all_bots [] = []
all_bots (g ∷ gs) = g.bots ++ all_bots gs

abbrev pub same_section : Section → Section → Bool
same_section a b = b.id == a.id

module _ (q : SectionedBot → Bool) where
  count-append :
      (xs ys : List SectionedBot) → count_where q (xs ++ ys) ≡ count_where q xs + count_where q ys
  count-append [] ys = omega arith
  count-append (x ∷ xs) ys = ground (arith, count-append xs ys)

  count-all_append :
      (gs hs : List BotListSection)
      → count_where q (all_bots (gs ++ hs))
        ≡ count_where q (all_bots gs) + count_where q (all_bots hs)
  count-all_append [] hs = omega arith
  count-all_append (g ∷ gs) hs = omega (
    arith,
    count-all_append gs hs,
    count-append g.bots (all_bots (gs ++ hs)),
    count-append g.bots (all_bots gs),
  )

  count-listed :
      (key : SectionKey) (title : Option String) (bs : List SectionedBot)
      → count_where q (all_bots (listed key title bs)) ≡ count_where q bs
  count-listed key title [] = refl
  count-listed key title (b ∷ bs) = omega (arith, count-append (b ∷ bs) [])

  count-keep :
      (p : SectionedBot → Bool) (bs : List SectionedBot)
      → count_where q (keep p bs) ≡ count_where (λ b. p b && q b) bs
  count-keep p [] = refl
  count-keep p (b ∷ bs) = ground (arith, count-keep p bs)

-- Two tests that never hold together, and a third that holds when one of them does.
count-split :
    (p r s : SectionedBot → Bool) (bs : List SectionedBot)
    → ((b : SectionedBot) → ((p b || r b) ≡ s b) × ((p b && r b) ≡ false))
    → count_where p bs + count_where r bs ≡ count_where s bs
count-split p r s [] h = refl
count-split p r s (b ∷ bs) h = ground (arith, count-split p r s bs h, h b)

-- a bot that is in one of the groups of `ss`
abbrev in_some : List Section → List Section → SectionedBot → Bool
in_some sections ss b =
    not b.pinned && known_section sections b.section_id && known_section ss b.section_id

once :
    (sections : List Section) (s : Section) (ss : List Section) (b : SectionedBot) (q : Bool)
    → any (same_section s) ss ≡ false
    → (((is_member sections s.id b && q) || (in_some sections ss b && q))
        ≡ (in_some sections (s ∷ ss) b && q))
      × (((is_member sections s.id b && q) && (in_some sections ss b && q)) ≡ false)
once sections s ss b q e = elim (Option-cases b.section_id) [
  | inl nowhere ↦ rw nowhere (ground arith)
  | inr (id, is) ↦ elim (Bool-cases (s.id == id)) [
    | inl same ↦
        let eq : s.id ≡ id = ground arith in
        let others : any (λ (x : Section). x.id == id) ss ≡ false = rw (← eq) e in
        rw (is, others) (ground arith)
    | inr differs ↦ rw is (ground arith)
  ]
]

nowhere : (o : Option RowId) → known_section [] o ≡ false
nowhere none = refl
nowhere (some id) = refl

module _ (q : SectionedBot → Bool) (sections : List Section) where
  count-nowhere :
      (bots : List SectionedBot) → count_where (λ b. in_some sections [] b && q b) bots ≡ 0
  count-nowhere [] = refl
  count-nowhere (b ∷ bs) = ground (arith, count-nowhere bs, nowhere b.section_id)

count-sections :
    (q : SectionedBot → Bool) (bots : List SectionedBot) (sections ss : List Section)
    → NoClash same_section ss
    → count_where q (all_bots (group_sections bots sections ss))
      ≡ count_where (λ b. in_some sections ss b && q b) bots
count-sections q bots sections [] unique = sym (count-nowhere q sections bots)
count-sections q bots sections (s ∷ ss) unique = omega (
  arith,
  count-all_append q
      (listed (SectionKey.section s.id) (some s.name) (keep (is_member sections s.id) bots))
      (group_sections bots sections ss),
  count-listed q (SectionKey.section s.id) (some s.name) (keep (is_member sections s.id) bots),
  count-keep q (is_member sections s.id) bots,
  count-sections q bots sections ss unique.1,
  count-split (λ b. is_member sections s.id b && q b) (λ b. in_some sections ss b && q b)
      (λ b. in_some sections (s ∷ ss) b && q b) bots (λ b. once sections s ss b (q b) unique.0),
)

count-three :
    (q : SectionedBot → Bool) (sections : List Section) (bots : List SectionedBot)
    → count_where (λ b. is_pinned b && q b) bots
        + (count_where (λ b. in_some sections sections b && q b) bots
            + count_where (λ b. is_unassigned sections b && q b) bots)
      ≡ count_where q bots
count-three q sections [] = refl
count-three q sections (b ∷ bs) = ground (arith, count-three q sections bs)

-- If the sections have different identifiers, the groups hold every bot as often as the list that
-- they were built from: for every test, as many bots of the groups pass it as bots of the list.
pub group_bots_for_sidebar-count :
    (q : SectionedBot → Bool) (bots : List SectionedBot) (sections : List Section)
    → NoClash same_section sections
    → count_where q (all_bots (group_bots_for_sidebar bots sections)) ≡ count_where q bots
unfolding group_bots_for_sidebar
group_bots_for_sidebar-count q bots sections unique =
    let pinned_bots = listed pinned (some "Pinned") (keep is_pinned bots) in
    let title =
      if has_any (keep is_pinned bots) || has_any sections then some "Unassigned" else none in
    let rest = listed unassigned title (keep (is_unassigned sections) bots) in
    let members = group_sections bots sections sections in
    omega (
      arith,
      count-all_append q pinned_bots (members ++ rest),
      count-all_append q members rest,
      count-listed q pinned (some "Pinned") (keep is_pinned bots),
      count-listed q unassigned title (keep (is_unassigned sections) bots),
      count-keep q is_pinned bots,
      count-keep q (is_unassigned sections) bots,
      count-sections q bots sections sections unique,
      count-three q sections bots,
    )
