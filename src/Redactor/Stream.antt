-- ===== src/Redactor/Stream.antt =====
-- However a text is cut into chunks, the redactor passes on the redaction of the whole text.
use grok_bot_v.Prelude.{ℕ, zero, suc, ◌-◌, ◌≡◌, none, some, List, [], ◌∷◌, ◌++◌, length, All}
use grok_bot_v.Redactor.Values.{Fits}
use grok_bot_v.Redactor.{Units, mark, secret_at, Drained}

-- The redaction of a text: from left to right, at each place that no earlier secret covers, the first
-- of the values that starts there is replaced. `covered` units still belong to a secret.
pub redacted : List Units → ℕ → Units → Units
redacted values covered [] = []
redacted values (suc covered) (x ∷ text) = redacted values covered text
redacted values zero (x ∷ text) = elim (secret_at values (x ∷ text)) [
  | none ↦ x ∷ redacted values 0 text
  | some secret ↦ mark ++ redacted values (length secret - 1) text
]

module _ (values : List Units) (max : ℕ) (fits : All (Fits max) values) where
  -- What a round before the limit puts out, and what it leaves, make up the redaction whatever
  -- follows.
  abbrev Continues : Units → Units → Drained → Type 0
  Continues text more d = redacted values 0 (text ++ more) ≡ d.0 ++ redacted values 0 (d.1 ++ more)

-- The chunks, one after the other.
abbrev pub joined : List Units → Units
joined [] = []
joined (chunk ∷ chunks) = chunk ++ joined chunks
