-- ===== src/Compaction/Budget.antt =====
-- A transcript keeps its budget, and leaves out no message before the last that it has.
use Prim.Native.String.{◌++◌ as text_append}
use text.Mathlib.TextLemmas.{nil-append, cons-append}
use mathlib.Core.Path.{subst}
use grok_bot_v.Prelude.{
  ℕ, zero, suc, ◌+◌, ◌≤◌, ◌<◌, ◌≡◌, refl, sym, ap, ◌∙◌, String, Bool, true, false, List, [], ◌∷◌,
  map, if◌then◌else◌, ltb, take, length, Bool-cases, if_cases, inl, inr, arith,
}
use grok_bot_v.Prelude.Text.{text_length, join}
use grok_bot_v.Store.Blocks.{MessageBlock}
use grok_bot_v.Store.Schema.{Message}
use grok_bot_v.Compaction.Plan.{max_transcript_chars, Batch}
use grok_bot_v.Compaction.Transcripts.{
  Transcript, refuse, transcript, transcribe, shorten, fitting, part_of,
}

text_length-append : (s t : String) → text_length (text_append s t) ≡ text_length s + text_length t
text_length-append String.[] t = rw (nil-append t) (omega arith)
text_length-append (String.◌∷◌ c s) t =
    rw (cons-append c s t) (omega (arith, text_length-append s t))

abbrev gap : Bool → ℕ
gap first = if first then 0 else 2

-- The length of parts that follow what a text has already.
abbrev joined_length : Bool → List String → ℕ
joined_length first [] = 0
joined_length first (part ∷ parts) = gap first + text_length part + joined_length false parts

text_length-join :
    (part : String) (parts : List String)
    → text_length (join "\n\n" (part ∷ parts)) ≡ joined_length true (part ∷ parts)
text_length-join part [] = omega arith
text_length-join part (next ∷ parts) = omega (
  arith,
  text_length-append part (text_append "\n\n" (join "\n\n" (next ∷ parts))),
  text_length-append "\n\n" (join "\n\n" (next ∷ parts)),
  text_length-join next parts,
)

fitting-budget :
    (first : Bool) (used : ℕ) (parts : List String)
    → used ≤ max_transcript_chars
    → used + joined_length first (fitting first used parts) ≤ max_transcript_chars
unfolding fitting
fitting-budget first used [] h = omega arith
fitting-budget first used (part ∷ parts) h =
    elim (Bool-cases (ltb max_transcript_chars (used + gap first + text_length part))) [
      | inl over ↦ rw over (omega arith)
      | inr fits ↦ rw fits (
          omega (
            arith,
            fitting-budget false (used + gap first + text_length part) parts (ground arith),
          ))
    ]

fitting-take :
    (first : Bool) (used : ℕ) (parts : List String)
    → fitting first used parts ≡ take (length (fitting first used parts)) parts
unfolding fitting
fitting-take first used [] = refl
fitting-take first used (part ∷ parts) =
    elim (Bool-cases (ltb max_transcript_chars (used + gap first + text_length part))) [
      | inl over ↦ rw over refl
      | inr fits ↦
          rw fits
            (ap (λ l. part ∷ l) (fitting-take false (used + gap first + text_length part) parts))
    ]

take_self : (xs : List Message) → xs ≡ take (length xs) xs
take_self [] = refl
take_self (x ∷ xs) = ap (λ l. x ∷ l) (take_self xs)

take-length-take : (n : ℕ) (xs : List Message) → take n xs ≡ take (length (take n xs)) xs
take-length-take zero xs = refl
take-length-take (suc n) [] = refl
take-length-take (suc n) (x ∷ xs) = ap (λ l. x ∷ l) (take-length-take n xs)

map-take :
    (f : Message → String) (n : ℕ) (xs : List Message) → map f (take n xs) ≡ take n (map f xs)
map-take f zero xs = refl
map-take f (suc n) [] = refl
map-take f (suc n) (x ∷ xs) = ap (λ l. f x ∷ l) (map-take f n xs)

take_pos : (n : ℕ) (xs : List Message) → 0 < length xs → 0 < length (take (suc n) xs)
take_pos n [] h = h
take_pos n (x ∷ xs) h = omega arith

-- What a transcript holds of its batch.
pub record Covers (history_text : List MessageBlock → String) (batch : Batch) (rows : List Message)
    (text : String) : Type 0 where
  pub first_rows : rows ≡ take (length rows) batch.rows
  pub all_parts : text ≡ join "\n\n" (map (part_of history_text) rows)
  pub in_budget : text_length text ≤ max_transcript_chars
  pub whole : batch.bootstrapping ≡ true → rows ≡ batch.rows
  pub some_row : 0 < length batch.rows → 0 < length rows

module _ (history_text : List MessageBlock → String) (batch : Batch) where
  abbrev CoversOf : Transcript → Type 0
  CoversOf (refuse reason) = Unit {0}
  CoversOf (transcript rows text) = Covers history_text batch rows text

  shorten-Covers :
      (parts : List String)
      → batch.bootstrapping ≡ false
      → parts ≡ take (length parts) (map (part_of history_text) batch.rows)
      → joined_length true parts ≤ max_transcript_chars
      → CoversOf (shorten batch.rows parts)
  shorten-Covers [] later prefix fits = tt
  shorten-Covers (part ∷ parts) later prefix fits = record {
    first_rows = take-length-take (suc (length parts)) batch.rows;
    all_parts =
        ap (join "\n\n")
          (prefix ∙ sym (map-take (part_of history_text) (suc (length parts)) batch.rows));
    in_budget = omega (arith, text_length-join part parts);
    whole = λ legacy. cc;
    some_row = take_pos (length parts) batch.rows;
  }

  transcribe-CoversOf : CoversOf (transcribe history_text batch)
  unfolding transcribe
  transcribe-CoversOf =
      let parts = map (part_of history_text) batch.rows in
      if_cases CoversOf (ltb max_transcript_chars (text_length (join "\n\n" parts)))
        (λ over.
          if_cases CoversOf batch.bootstrapping (λ legacy. tt)
            (λ later.
              shorten-Covers (fitting true 0 parts) later (fitting-take true 0 parts)
                (omega (arith, fitting-budget true 0 parts (omega arith)))))
        (λ fits. record {
          first_rows = take_self batch.rows;
          all_parts = refl;
          in_budget = ground arith;
          whole = λ legacy. refl;
          some_row = λ h. h;
        })

-- A transcript is made of the first messages of the batch, of at least one if the batch has one, with
-- the texts of these in order and in at most 40,000 units; a batch that rebuilds a missing summary is
-- taken whole or refused.
pub transcribe_lem :
    (history_text : List MessageBlock → String) (batch : Batch) (rows : List Message)
    (text : String)
    → transcribe history_text batch ≡ transcript rows text
    → Covers history_text batch rows text
transcribe_lem history_text batch rows text e =
    subst (CoversOf history_text batch) e (transcribe-CoversOf history_text batch)
