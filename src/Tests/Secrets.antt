-- ===== src/Tests/Secrets.antt =====
-- The theorems on screen leases and on the redactor, at small inputs.
use Prim.Native.Char.{code}
use mathlib.Core.Option
use grok_bot_v.Prelude.{
  ℕ, zero, suc, ◌<◌, ◌≤◌, ◌≡◌, ◌≢◌, ◌↔◌, ◌⊎◌, refl, ap, String, true, false, Option, none, some,
  List, [], ◌∷◌, ◌++◌, ◌==◌, if◌then◌else◌,
}
use grok_bot_v.ScreenLease.{
  Numerals, has_colon, screen_lease_id, parse_screen_lease_id, can_take_screen_lease,
  can_release_screen_lease,
}
use grok_bot_v.ScreenLease.Fencing.{
  parse-screen_lease_id, can_take_screen_lease_iff, can_release_screen_lease_iff,
}
use grok_bot_v.Redactor.{Units, values_of, stream, mark, drain, finish, push}

-- Numbers as strokes.
abbrev strokes : ℕ → String
strokes zero = ""
strokes (suc n) = String.◌∷◌ "I" (strokes n)

abbrev count_strokes : String → Option ℕ
count_strokes String.[] = some 0
count_strokes (String.◌∷◌ c s) = if code c == b'I' then Option.map suc (count_strokes s) else none

count-strokes : (n : ℕ) → count_strokes (strokes n) ≡ some n
count-strokes zero = refl
count-strokes (suc n) = ap (Option.map suc) (count-strokes n)

strokes_plain : (n : ℕ) → has_colon (strokes n) ≡ false
strokes_plain zero = refl
strokes_plain (suc n) = strokes_plain n

abbrev in_strokes : Numerals
in_strokes = record {
  print = strokes;
  number = count_strokes;
  number-print = count-strokes;
  print_plain = strokes_plain;
}

team_run_named : ◌≢◌ {A = String} "team:7" ""
team_run_named e = cc

other_run_named : ◌≢◌ {A = String} "b" ""
other_run_named e = cc

parse-screen_lease_id_example :
    parse_screen_lease_id in_strokes (screen_lease_id in_strokes "team:7" 3)
    ≡ record { owner_id = "team:7"; fence = 3 }
parse-screen_lease_id_example = parse-screen_lease_id in_strokes "team:7" 3 team_run_named

can_take_screen_lease_iff_example :
    (can_take_screen_lease in_strokes
        (some (screen_lease_id in_strokes "team:7" 3))
        (some (screen_lease_id in_strokes "b" 4))
      ≡ true)
    ↔ ((◌≡◌ {A = String} "team:7" "b" × ◌≡◌ {A = ℕ} 3 4) ⊎ (3 < 4))
can_take_screen_lease_iff_example =
    can_take_screen_lease_iff in_strokes "team:7" "b" 3 4 team_run_named other_run_named

can_release_screen_lease_iff_example :
    (can_release_screen_lease in_strokes
        (some (screen_lease_id in_strokes "b" 3))
        (some (screen_lease_id in_strokes "b" 4))
      ≡ true)
    ↔ (◌≡◌ {A = String} "b" "b" × (3 ≤ 4))
can_release_screen_lease_iff_example =
    can_release_screen_lease_iff in_strokes "b" "b" 3 4 other_run_named other_run_named

abbrev secrets : List Units
secrets = (1 ∷ 2 ∷ []) ∷ (1 ∷ 2 ∷ 3 ∷ []) ∷ []

abbrev chunks : List Units
chunks = (7 ∷ 1 ∷ []) ∷ (2 ∷ []) ∷ (3 ∷ 1 ∷ 2 ∷ 4 ∷ []) ∷ []

-- The longer secret is taken out, though it comes in three chunks.
streamed : stream (values_of secrets) [] chunks ≡ 7 ∷ (mark ++ (mark ++ 4 ∷ []))
unfolding stream values_of push finish drain
streamed = refl
