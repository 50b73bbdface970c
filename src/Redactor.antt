-- ===== src/Redactor.antt =====
-- `createStreamingRedactor` of packages/core/src/events.ts: secrets are taken out of a text that comes
-- in chunks, before any part of it is passed on. A text is the list of its UTF-16 units.
pub mod Values
pub mod Stream
use grok_bot_v.Prelude.{
  ℕ, zero, suc, ◌+◌, ◌-◌, ◌≡◌, Bool, true, false, ◌&&◌, not, Option, none, some, List, [], ◌∷◌,
  ◌++◌, if◌then◌else◌, ◌==◌, ltb, leb, length, drop, keep, any, find_where,
}

abbrev pub Units : Type 0
Units = List ℕ

-- `buffer.startsWith(value, offset)`, for the buffer from the offset on
abbrev pub starts_with : Units → Units → Bool
starts_with text [] = true
starts_with [] (c ∷ value) = false
starts_with (x ∷ text) (c ∷ value) = x == c && starts_with text value

abbrev pub same_units : Units → Units → Bool
same_units a b = length a == length b && starts_with a b

abbrev pub is_given : Units → Bool
is_given [] = false
is_given (c ∷ value) = true

-- `new Set(secrets)`: the first of equal secrets
abbrev pub distinct : List Units → List Units
distinct [] = []
distinct (s ∷ ss) = s ∷ keep (λ t. not (same_units s t)) (distinct ss)

abbrev pub insert_longest : Units → List Units → List Units
insert_longest s [] = s ∷ []
insert_longest s (t ∷ ts) =
    if leb (length t) (length s) then s ∷ t ∷ ts else t ∷ insert_longest s ts

-- The longest first.
abbrev pub sort_longest : List Units → List Units
sort_longest [] = []
sort_longest (s ∷ ss) = insert_longest s (sort_longest ss)

unfoldable pub values_of : List Units → List Units
values_of secrets = sort_longest (distinct (keep is_given secrets))

abbrev pub max_length : List Units → ℕ
max_length [] = 0
max_length (s ∷ ss) = length s

-- `[redacted]`
abbrev pub mark : Units
mark = b'[' ∷ b'r' ∷ b'e' ∷ b'd' ∷ b'a' ∷ b'c' ∷ b't' ∷ b'e' ∷ b'd' ∷ b']' ∷ []

-- The first of the values that the text starts with.
abbrev pub secret_at : List Units → Units → Option Units
secret_at values text = find_where (starts_with text) values

-- The output of a drain, and what it leaves in the buffer.
abbrev pub Drained : Type 0
Drained = Units × Units

abbrev pub put_before : Units → Drained → Drained
put_before out (output, rest) = (out ++ output, rest)

-- The loop: `left` units of the rest of the buffer are before the limit. The fuel bounds the rounds.
unfoldable pub scan : ℕ → List Units → ℕ → Units → Drained
scan zero values left rest = ([], rest)
scan (suc fuel) values zero rest = ([], rest)
scan (suc fuel) values (suc left) [] = ([], [])
scan (suc fuel) values (suc left) (x ∷ rest) = elim (secret_at values (x ∷ rest)) [
  | none ↦ put_before (x ∷ []) (scan fuel values left rest)
  | some secret ↦
      put_before mark
        (scan fuel values (suc left - length secret) (drop (length secret) (x ∷ rest)))
]

abbrev pub limit : List Units → Bool → Units → ℕ
limit values final buffer = if final then length buffer else length buffer + 1 - max_length values

unfoldable pub drain : List Units → Bool → Units → Drained
unfolding scan
drain [] final buffer = (buffer, [])
drain (v ∷ vs) final buffer = scan (length buffer) (v ∷ vs) (limit (v ∷ vs) final buffer) buffer

-- The redactor's state is its buffer.
unfoldable pub push : List Units → Units → Units → Drained
push values buffer chunk = drain values false (buffer ++ chunk)

unfoldable pub finish : List Units → Units → Units
finish values buffer = (drain values true buffer).0

-- The output for chunks that are pushed one after the other, and then the rest.
unfoldable pub stream : List Units → Units → List Units → Units
stream values buffer [] = finish values buffer
stream values buffer (chunk ∷ chunks) =
    let (output, rest) = push values buffer chunk in output ++ stream values rest chunks
