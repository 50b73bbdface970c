-- ===== src/LiveMessage/Text.antt =====
-- A live message keeps the agent's text: nothing is lost or repeated as it moves between blocks.
use mathlib.Core.List.{append_assoc, append-nil}
use grok_bot_v.Prelude.{
  ◌≡◌, refl, sym, ap, ◌∙◌, false, ◌&&◌, List, [], ◌∷◌, ◌++◌, length, drop, length-append, if_both,
  Bool-cases, inl, inr, arith,
}
use grok_bot_v.Redactor.{Units}
use grok_bot_v.LiveMessage.{
  LiveBlock, text, progress, steps, other, delta, full, tool, live_message_text, text_of,
  split_tail, append_text, append_text_segment, append_tool_call_segment, append_calls,
  flushed_length, tail_text, with_tail, is_any, ends_sentence, reduce_tail,
  reduce_live_message_blocks,
}

live_message_text-append :
    (xs ys : List LiveBlock)
    → live_message_text (xs ++ ys) ≡ live_message_text xs ++ live_message_text ys
unfolding live_message_text
live_message_text-append [] ys = refl
live_message_text-append (x ∷ xs) ys =
    ap (λ t. text_of x ++ t) (live_message_text-append xs ys)
    ∙ sym (append_assoc (text_of x) (live_message_text xs) (live_message_text ys))

-- The text of a message is that of its settled blocks, and then that of its progress block.
split_tail-text :
    (bs : List LiveBlock)
    → live_message_text bs ≡ live_message_text (split_tail bs).segments ++ (split_tail bs).text
unfolding split_tail live_message_text
split_tail-text [] = refl
split_tail-text (text t ∷ []) = sym (append-nil (t ++ []))
split_tail-text (progress t names ∷ []) = append-nil t
split_tail-text (steps s ∷ []) = refl
split_tail-text (other k ∷ []) = refl
split_tail-text (b ∷ c ∷ bs) =
    ap (λ t. text_of b ++ t) (split_tail-text (c ∷ bs))
    ∙ sym (
        append_assoc (text_of b) (live_message_text (split_tail (c ∷ bs)).segments)
          (split_tail (c ∷ bs)).text)

no_tail : (bs : List LiveBlock) → (split_tail bs).is_progress ≡ false → (split_tail bs).text ≡ []
unfolding split_tail
no_tail [] e = refl
no_tail (text t ∷ []) e = refl
no_tail (progress t names ∷ []) e = cc
no_tail (steps s ∷ []) e = refl
no_tail (other k ∷ []) e = refl
no_tail (b ∷ c ∷ bs) e = no_tail (c ∷ bs) e

append_text-text :
    (bs : List LiveBlock) (t : Units)
    → live_message_text (append_text bs t) ≡ live_message_text bs ++ t
unfolding append_text live_message_text
append_text-text [] t = append-nil t
append_text-text (text s ∷ []) t = append-nil (s ++ t) ∙ ap (λ u. u ++ t) (sym (append-nil s))
append_text-text (progress s names ∷ []) t =
    ap (λ u. s ++ u) (append-nil t) ∙ ap (λ u. u ++ t) (sym (append-nil s))
append_text-text (steps s ∷ []) t = append-nil t
append_text-text (other k ∷ []) t = append-nil t
append_text-text (b ∷ c ∷ bs) t =
    ap (λ u. text_of b ++ u) (append_text-text (c ∷ bs) t)
    ∙ sym (append_assoc (text_of b) (live_message_text (c ∷ bs)) t)

append_text_segment-text :
    (bs : List LiveBlock) (t : Units)
    → live_message_text (append_text_segment bs t) ≡ live_message_text bs ++ t
unfolding append_text_segment
append_text_segment-text bs [] = sym (append-nil (live_message_text bs))
append_text_segment-text bs (c ∷ t) = append_text-text bs (c ∷ t)

drop-length : (a b : Units) → drop (length a) (a ++ b) ≡ b
drop-length [] b = refl
drop-length (x ∷ a) b = drop-length a b

module _ (humanize : Units → Units) where
  append_call-text :
      (bs : List LiveBlock) (name : Units)
      → live_message_text (append_tool_call_segment humanize bs name) ≡ live_message_text bs
  unfolding append_tool_call_segment live_message_text
  append_call-text [] name = refl
  append_call-text (text t ∷ []) name = refl
  append_call-text (progress t names ∷ []) name = refl
  append_call-text (steps s ∷ []) name = refl
  append_call-text (other k ∷ []) name = refl
  append_call-text (b ∷ c ∷ bs) name = ap (λ t. text_of b ++ t) (append_call-text (c ∷ bs) name)

  append_calls-text :
      (bs : List LiveBlock) (names : List Units)
      → live_message_text (append_calls humanize bs names) ≡ live_message_text bs
  unfolding append_calls
  append_calls-text bs [] = refl
  append_calls-text bs (name ∷ names) =
      append_calls-text (append_tool_call_segment humanize bs name) names ∙ append_call-text bs name

  with_tail-text :
      (bs : List LiveBlock) (t : Units) (pending : List Units)
      → live_message_text (with_tail bs t pending) ≡ live_message_text bs ++ t
  unfolding live_message_text
  with_tail-text bs [] pending = sym (append-nil (live_message_text bs))
  with_tail-text bs (c ∷ t) pending =
      live_message_text-append bs (progress (c ∷ t) pending ∷ [])
      ∙ ap (λ u. live_message_text bs ++ u) (append-nil (c ∷ t))

  reduce_tail-text :
      (bs : List LiveBlock) (t : Units) (pending : List Units)
      → live_message_text (reduce_tail humanize bs t pending) ≡ live_message_text bs ++ t
  reduce_tail-text bs t pending =
      if_both (λ (r : List LiveBlock). live_message_text r ≡ live_message_text bs ++ t)
        (is_any pending && ends_sentence t)
        (append_calls-text (append_text_segment bs t) pending ∙ append_text_segment-text bs t)
        (with_tail-text bs t pending)

  flushed :
      (bs : List LiveBlock)
      → flushed_length (split_tail bs) (live_message_text bs)
        ≡ length (live_message_text (split_tail bs).segments)
  flushed bs =
      let whole =
        ap length (split_tail-text bs)
        ∙ length-append (live_message_text (split_tail bs).segments) (split_tail bs).text in
      elim (Bool-cases (split_tail bs).is_progress) [
        | inl is ↦ rw is (omega (arith, whole))
        | inr is_not ↦ rw is_not (omega (arith, whole, ap length (no_tail bs is_not)))
      ]

  tail_text-delta :
      (bs : List LiveBlock) (d : Units)
      → tail_text (split_tail bs) (live_message_text bs) (delta d) ≡ (split_tail bs).text ++ d
  tail_text-delta bs d =
      let settled = live_message_text (split_tail bs).segments in
      let last = (split_tail bs).text in
      ap (λ n. drop n (live_message_text bs ++ d)) (flushed bs)
      ∙ ap (λ u. drop (length settled) (u ++ d)) (split_tail-text bs)
      ∙ ap (drop (length settled)) (append_assoc settled last d)
      ∙ drop-length settled (last ++ d)

  tail_text-full :
      (bs : List LiveBlock) (t s : Units)
      → t ≡ live_message_text (split_tail bs).segments ++ s
      → tail_text (split_tail bs) (live_message_text bs) (full t) ≡ s
  tail_text-full bs t s e =
      let settled = live_message_text (split_tail bs).segments in
      ap (λ n. drop n t) (flushed bs) ∙ ap (drop (length settled)) e ∙ drop-length settled s

  tail_text-tool :
      (bs : List LiveBlock) (name : Units)
      → tail_text (split_tail bs) (live_message_text bs) (tool name) ≡ (split_tail bs).text
  tail_text-tool bs name = elim (Bool-cases (split_tail bs).is_progress) [
    | inl is ↦ rw is refl
    | inr is_not ↦ rw is_not (sym (no_tail bs is_not))
  ]

  -- The text of a live message after a delta is the text before and then the delta; after a call of a
  -- tool it is the text before; and after a text as a whole that begins with the text of the settled
  -- blocks, it is that text.
  pub reduce-live_message_text :
      (bs : List LiveBlock) (d name s : Units)
      → let t = live_message_text (split_tail bs).segments ++ s in
        (live_message_text (reduce_live_message_blocks humanize bs (delta d))
          ≡ live_message_text bs ++ d)
        × (live_message_text (reduce_live_message_blocks humanize bs (tool name))
            ≡ live_message_text bs)
        × (live_message_text (reduce_live_message_blocks humanize bs (full t)) ≡ t)
  unfolding reduce_live_message_blocks
  reduce-live_message_text bs d name s =
      let settled = (split_tail bs).segments in
      let last = (split_tail bs).text in
      let pending = (split_tail bs).pending in
      let rule = λ (t : Units) (names : List Units). reduce_tail-text settled t names in
      (
        rule (tail_text (split_tail bs) (live_message_text bs) (delta d)) (pending ++ [])
            ∙ ap (λ t. live_message_text settled ++ t) (tail_text-delta bs d)
            ∙ sym (append_assoc (live_message_text settled) last d)
            ∙ ap (λ t. t ++ d) (sym (split_tail-text bs)),
        rule (tail_text (split_tail bs) (live_message_text bs) (tool name)) (pending ++ name ∷ [])
            ∙ ap (λ t. live_message_text settled ++ t) (tail_text-tool bs name)
            ∙ sym (split_tail-text bs),
        rule
              (tail_text (split_tail bs) (live_message_text bs)
                (full (live_message_text settled ++ s)))
              (pending ++ [])
            ∙ ap (λ u. live_message_text settled ++ u)
                (tail_text-full bs (live_message_text settled ++ s) s refl),
      )
