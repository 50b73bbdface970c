-- ===== src/ScreenLease/Fencing.antt =====
-- The identifier of a screen lease is read back, and fences decide.
use Prim.Native.Char.{code}
use Prim.Native.String.{◌++◌ as text_append}
use text.Mathlib.TextLemmas.{nil-append, cons-append}
use grok_bot_v.Prelude.{
  ℕ, ◌≤◌, ◌<◌, ◌≡◌, ◌≢◌, ◌↔◌, ◌⊎◌, refl, sym, ap, ◌∙◌, String, true, false, ◌&&◌, ◌||◌, none, some,
  ◌==◌, ltb, leb, str_eq, inl, inr, arith, eq_iff, Bool-cases,
}
use grok_bot_v.Prelude.Text.{is_empty}
use grok_bot_v.ScreenLease.{
  has_colon, Numerals, split_further, at_last_colon, screen_lease_id, parse_split,
  parse_screen_lease_id, given, can_take_screen_lease, can_release_screen_lease,
}

at_last_colon-plain : (s : String) → has_colon s ≡ false → at_last_colon s ≡ none
at_last_colon-plain String.[] e = refl
at_last_colon-plain (String.◌∷◌ c s) e = ground (arith, at_last_colon-plain s)

colon-append : (t : String) → text_append ":" t ≡ String.◌∷◌ ":" t
colon-append t = cons-append ":" "" t ∙ ap (String.◌∷◌ ":") (nil-append t)

split-colon : (t : String) → has_colon t ≡ false → at_last_colon (String.◌∷◌ ":" t) ≡ some ("", t)
split-colon t e = rw (at_last_colon-plain t e) refl

at_last_colon-append :
    (s t : String)
    → has_colon t ≡ false
    → at_last_colon (text_append s (text_append ":" t)) ≡ some (s, t)
at_last_colon-append String.[] t e =
    ap at_last_colon (nil-append (text_append ":" t) ∙ colon-append t) ∙ split-colon t e
at_last_colon-append (String.◌∷◌ c s) t e =
    ap at_last_colon (cons-append c s (text_append ":" t))
    ∙ ap (split_further (String.◌∷◌ c "") (text_append s (text_append ":" t)) (code c == b':'))
        (at_last_colon-append s t e)
    ∙ ap (λ (front : String). some (front, t))
        (cons-append c "" s ∙ ap (String.◌∷◌ c) (nil-append s))

not_empty : (s : String) → s ≢ "" → is_empty s ≡ false
not_empty String.[] h = absurd (h refl)
not_empty (String.◌∷◌ c s) h = refl

append_not_empty : (s t : String) → is_empty s ≡ false → is_empty (text_append s t) ≡ false
append_not_empty String.[] t e = cc
append_not_empty (String.◌∷◌ c s) t e = ap is_empty (cons-append c s t)

module _ (n : Numerals) where
  -- What is read back from the identifier of a lease is the run, if it has an identifier, and the
  -- fence: also where the run's identifier has colons in it.
  pub parse-screen_lease_id :
      (run_id : String) (fence : ℕ)
      → run_id ≢ ""
      → parse_screen_lease_id n (screen_lease_id n run_id fence)
        ≡ record { owner_id = run_id; fence = fence }
  unfolding parse_screen_lease_id screen_lease_id
  parse-screen_lease_id run_id fence named =
      ap (parse_split n (screen_lease_id n run_id fence))
        (at_last_colon-append run_id (n.print fence) (n.print_plain fence))
      ∙ rw (not_empty run_id named, n.number-print fence) refl

  given-lease :
      (run_id : String) (fence : ℕ)
      → run_id ≢ ""
      → given n (some (screen_lease_id n run_id fence)) ≡ some (screen_lease_id n run_id fence)
  unfolding screen_lease_id
  given-lease run_id fence named =
      rw (append_not_empty run_id (text_append ":" (n.print fence)) (not_empty run_id named)) refl

  module _ (a b : String) (f g : ℕ) (a_named : a ≢ "") (b_named : b ≢ "") where
    abbrev held : String
    held = screen_lease_id n a f

    abbrev wanted : String
    wanted = screen_lease_id n b g

    same_lease : (str_eq held wanted ≡ true) → (a ≡ b) × (f ≡ g)
    same_lease e =
        let both =
          sym (parse-screen_lease_id a f a_named)
          ∙ ap (parse_screen_lease_id n) ((eq_iff held wanted).0 e)
          ∙ parse-screen_lease_id b g b_named in
        (ap (λ l. l.owner_id) both, ap (λ l. l.fence) both)

    fences :
        (ltb (parse_screen_lease_id n held).fence (parse_screen_lease_id n wanted).fence) ≡ ltb f g
    fences = rw (parse-screen_lease_id a f a_named, parse-screen_lease_id b g b_named) refl

    owners :
        str_eq (parse_screen_lease_id n wanted).owner_id (parse_screen_lease_id n held).owner_id
        ≡ str_eq b a
    owners = rw (parse-screen_lease_id a f a_named, parse-screen_lease_id b g b_named) refl

    levels :
        (leb (parse_screen_lease_id n held).fence (parse_screen_lease_id n wanted).fence) ≡ leb f g
    levels = rw (parse-screen_lease_id a f a_named, parse-screen_lease_id b g b_named) refl

    take-eq : can_take_screen_lease n (some held) (some wanted) ≡ (str_eq held wanted || ltb f g)
    unfolding can_take_screen_lease
    take-eq =
        rw (given-lease a f a_named, given-lease b g b_named)
          (ap (λ x. str_eq held wanted || x) fences)

    release-eq :
        can_release_screen_lease n (some held) (some wanted)
        ≡ (str_eq held wanted || str_eq b a && leb f g)
    unfolding can_release_screen_lease
    release-eq =
        rw (given-lease a f a_named, given-lease b g b_named)
          (ap
              (λ x.
                str_eq held wanted
                || x
                  && leb (parse_screen_lease_id n held).fence
                      (parse_screen_lease_id n wanted).fence)
              owners
            ∙ ap (λ x. str_eq held wanted || str_eq b a && x) levels)

    it_is : (a ≡ b) → (f ≡ g) → str_eq held wanted ≡ true
    it_is e e' =
        (eq_iff held wanted).1 (ap (λ r. screen_lease_id n r f) e ∙ ap (screen_lease_id n b) e')

    -- The screen that one lease holds may be taken by another, both of runs with an identifier,
    -- exactly when they are the same or the fence of the other is the higher.
    pub can_take_screen_lease_iff :
        (can_take_screen_lease n (some held) (some wanted) ≡ true) ↔ (((a ≡ b) × (f ≡ g)) ⊎ (f < g))
    can_take_screen_lease_iff = (
      λ e. elim (Bool-cases (str_eq held wanted)) [
        | inl same ↦ inl (same_lease same)
        | inr differs ↦ inr (ground (arith, take-eq))
      ],
      λ h. elim h [
        | inl same ↦ let it = it_is same.0 same.1 in ground (arith, take-eq)
        | inr lt ↦ ground (arith, take-eq)
      ],
    )

    -- A lease may release the screen that another holds, both of runs with an identifier, exactly when
    -- both are of one run and its fence is no lower.
    pub can_release_screen_lease_iff :
        (can_release_screen_lease n (some held) (some wanted) ≡ true) ↔ ((a ≡ b) × (f ≤ g))
    can_release_screen_lease_iff = (
      λ e. elim (Bool-cases (str_eq held wanted)) [
        | inl same ↦ let (run, level) = same_lease same in (run, omega (arith, level))
        | inr differs ↦
            (ground (arith, release-eq, eq_iff b a), ground (arith, release-eq, eq_iff b a))
      ],
      λ h.
          let (run, level) = h in
          let own : str_eq b a ≡ true = (eq_iff b a).1 (sym run) in ground (arith, release-eq),
    )
