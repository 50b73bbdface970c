-- ===== src/ScreenLease.antt =====
-- packages/core/src/screen-lease.ts: the identifier of a lease on a computer's screen, made of the run
-- that holds it and its fence, and who may take or release the screen. How a number is written and
-- read back as a text is a parameter.
pub mod Fencing
use Prim.Native.Char.{code}
use Prim.Native.String.{◌++◌ as text_append}
use grok_bot_v.Prelude.{
  ℕ, ◌≡◌, String, Bool, true, false, ◌&&◌, ◌||◌, Option, none, some, if◌then◌else◌, ◌==◌, ltb, leb,
  str_eq,
}
use grok_bot_v.Prelude.Text.{is_empty}

abbrev pub has_colon : String → Bool
has_colon String.[] = false
has_colon (String.◌∷◌ c s) = code c == b':' || has_colon s

-- A number as a text, and `Number` of a text where that is an integer that is not negative.
pub record Numerals : Type 0 where
  pub print : ℕ → String
  pub number : String → Option ℕ
  pub number-print : (n : ℕ) → number (print n) ≡ some n
  pub print_plain : (n : ℕ) → has_colon (print n) ≡ false

-- The texts before and after the last colon.
abbrev pub split_further :
    String → String → Bool → Option (String × String) → Option (String × String)
split_further first rest is_colon none = if is_colon then some ("", rest) else none
split_further first rest is_colon (some (before, after)) = some (text_append first before, after)

abbrev pub at_last_colon : String → Option (String × String)
at_last_colon String.[] = none
at_last_colon (String.◌∷◌ c s) =
    split_further (String.◌∷◌ c "") s (code c == b':') (at_last_colon s)

pub record ScreenLease : Type 0 where
  pub owner_id : String
  pub fence : ℕ

module _ (n : Numerals) where
  pub screen_lease_id : String → ℕ → String
  screen_lease_id run_id fence = text_append run_id (text_append ":" (n.print fence))

  abbrev pub fence_or_none : String → String → Option ℕ → ScreenLease
  fence_or_none lease_id owner none = record { owner_id = lease_id; fence = 0 }
  fence_or_none lease_id owner (some fence) = record { owner_id = owner; fence = fence }

  abbrev pub parse_split : String → Option (String × String) → ScreenLease
  parse_split lease_id none = record { owner_id = lease_id; fence = 0 }
  parse_split lease_id (some (owner, rest)) =
      if is_empty owner
      then record { owner_id = lease_id; fence = 0 }
      else fence_or_none lease_id owner (n.number rest)

  pub parse_screen_lease_id : String → ScreenLease
  parse_screen_lease_id lease_id = parse_split lease_id (at_last_colon lease_id)

  -- A lease that is absent or empty is none.
  abbrev pub given : Option String → Option String
  given none = none
  given (some lease) = if is_empty lease then none else some lease

  abbrev pub takes : Option String → Option String → Bool
  takes existing none = false
  takes none (some incoming) = true
  takes (some existing) (some incoming) =
      str_eq existing incoming
      || ltb (parse_screen_lease_id existing).fence (parse_screen_lease_id incoming).fence

  pub can_take_screen_lease : Option String → Option String → Bool
  can_take_screen_lease existing incoming = takes (given existing) (given incoming)

  abbrev pub releases : Option String → Option String → Bool
  releases existing none = true
  releases none (some incoming) = true
  releases (some existing) (some incoming) =
      str_eq existing incoming
      || str_eq (parse_screen_lease_id incoming).owner_id (parse_screen_lease_id existing).owner_id
        && leb (parse_screen_lease_id existing).fence (parse_screen_lease_id incoming).fence

  pub can_release_screen_lease : Option String → Option String → Bool
  can_release_screen_lease existing incoming = releases (given existing) (given incoming)
