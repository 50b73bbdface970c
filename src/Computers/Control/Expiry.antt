-- ===== src/Computers/Control/Expiry.antt =====
-- Whose control `expireComputerControl` ends.

use grok_bot_v.Prelude.{
  ℕ, ◌≡◌, refl, Bool, true, false, not, ◌&&◌, Option, none, some, List, [], ◌∷◌, arith, ◌==◌, ltb,
  has_value, find_where, update_where, if◌then◌else◌, Bool-cases, Option-cases, inl, inr, In, here,
  there, is_some, find_where-In, NoClash, NoClash-eq,
}
use grok_bot_v.Store.Blocks.{RowId}
use grok_bot_v.Store.Schema.{Db, Computer, Bot, Thread}
use grok_bot_v.Store.Tx.{ok, err, Result}
use grok_bot_v.Store.Tx.Keeps.{Keeps, keeps_rules, Keeps-transaction}
use grok_bot_v.History.Keeps.{Keeps-append_event_of}
use grok_bot_v.Events.Server.{Server}
use grok_bot_v.Events.Operations.{release, db-perform, committed, perform}
use grok_bot_v.Events.Release.{
  ReleaseInput, Released, controlled_computer, release_in_transaction, record_release, resume_run,
  bot_thread, announce_release, finalize_computer_control_release, clear_control,
}
use grok_bot_v.Computers.Control.{
  World, Outside, leased_computer, take_from_user, expiry_of, continue_released, revoke_control,
  expire_leased, expire_found, expire_computer_control, set_computers, count_computers, later_than,
  enqueue_takeover_continuation,
}

In-update_where_of :
    {A : Type 0} (p : A → Bool) (f : A → A) (xs : List A) {x : A}
    → In x xs
    → p x ≡ false
    → In x (update_where p f xs)
In-update_where_of p f [] i e = elim i [ ]
In-update_where_of p f (x ∷ xs) (here same) e =
    let miss : p x ≡ false = rw same e in rw miss (here same)
In-update_where_of p f (x ∷ xs) (there i) e = there (In-update_where_of p f xs i e)

module _ (c : Computer) where
  Keeps-resume_run :
      (input : ReleaseInput) (run_id : Option RowId)
      → Keeps (λ d. In c d.computers) (resume_run input run_id)
  unfolding resume_run
  Keeps-resume_run input none = search keeps_rules
  Keeps-resume_run input (some run_id) = search keeps_rules depth 10

  Keeps-bot_thread :
      (input : ReleaseInput) (b : Option Bot) → Keeps (λ d. In c d.computers) (bot_thread input b)
  Keeps-bot_thread input none = search keeps_rules
  Keeps-bot_thread input (some b) = search keeps_rules

  Keeps-announce :
      (event_id : RowId) (input : ReleaseInput) (run_id : Option RowId) (thread : Option Thread)
      → Keeps (λ d. In c d.computers) (announce_release event_id input run_id thread)
  Keeps-announce event_id input run_id none = search keeps_rules
  Keeps-announce event_id input run_id (some thread) =
      search (keeps_rules, Keeps-append_event_of) depth 10

  Keeps-record_release :
      (event_id : RowId) (input : ReleaseInput)
      → Keeps (λ d. In c d.computers) (record_release event_id input)
  unfolding record_release
  Keeps-record_release event_id input =
      search (keeps_rules, Keeps-resume_run, Keeps-bot_thread, Keeps-announce) depth 10

  Keeps-release_of :
      (event_id : RowId) (input : ReleaseInput)
      → controlled_computer input c ≡ false
      → Keeps (λ d. In c d.computers) (release_in_transaction event_id input)
  unfolding release_in_transaction
  Keeps-release_of event_id input other =
      let kept = (λ (db : Db) (i : In c db.computers).
        In-update_where_of (controlled_computer input) (clear_control input.holder) db.computers i
          other) in
      search (keeps_rules, Keeps-record_release, kept) depth 10

  release-kept :
      (event_id : RowId) (input : ReleaseInput) (s : Server)
      → controlled_computer input c ≡ false
      → In c s.db.computers
      → In c (finalize_computer_control_release event_id input s).1.db.computers
  unfolding perform committed
  release-kept event_id input s other i = elim (db-perform (release event_id input) s) [
    | inl done ↦ rw done (
        Keeps-transaction (release_in_transaction event_id input) s.db
          (Keeps-release_of event_id input other) i)
    | inr same ↦ rw same i
  ]

server-enqueue :
    (accepts : Bool) (run_id : Option RowId) (w : World)
    → (enqueue_takeover_continuation accepts run_id w).server ≡ w.server
server-enqueue accepts none w = refl
server-enqueue true (some run_id) w = refl
server-enqueue false (some run_id) w = refl

server-continue_released :
    (accepts : Bool) (r : Result (Option Released) × Server) (w : World)
    → (continue_released accepts r w).1.server ≡ r.1
server-continue_released accepts (ok none, s) w = refl
server-continue_released accepts (ok (some r), s) w =
    server-enqueue accepts r.run_id (record w { server = s })
server-continue_released accepts (err e, s) w = refl

-- Both outcomes of a test.
either : {A : Type 0} (P : A → Type 0) (b : Bool) {x y : A} → P x → P y → P (if b then x else y)
either P true px py = px
either P false px py = py

abbrev pub same_computer : Computer → Computer → Bool
same_computer a b = b.id == a.id

-- the lease of the row is the one that is to expire, and its time has come
abbrev pub ended : ℕ → RowId → RowId → Computer → Bool
ended now computer_id lease_id c =
    leased_computer computer_id lease_id c && not (later_than c.control_lease_expires_at now)

-- what a call leaves still has the row
abbrev pub Spared : Computer → Option Bool × World → Type 0
Spared c r = In c r.1.server.db.computers

module _ (c : Computer) (outside : Outside) (event_id : RowId) (now lease_id : RowId) where
  revoke-Spared :
      (x : Computer) (bot_id : RowId) (w : World)
      → leased_computer x.id lease_id c ≡ false
      → In c w.server.db.computers
      → Spared c (revoke_control (λ w. w) outside event_id x bot_id lease_id w)
  revoke-Spared x bot_id w other i =
      let p = leased_computer x.id lease_id in
      let kept : In c (update_where p take_from_user w.server.db.computers) =
        In-update_where_of p take_from_user w.server.db.computers i other in
      let w₁ = set_computers p take_from_user w in
      let input = expiry_of x bot_id lease_id in
      let released = finalize_computer_control_release event_id input w₁.server in
      either (Spared c) (count_computers p w == 1)
        (either (Spared c) (is_some x.provider_ref && not outside.revokes) kept (
          rw (server-continue_released outside.accepts released w₁)
            (release-kept c event_id input w₁.server (ground arith) kept)))
        kept

  not_leased :
      (x : Computer)
      → ended now x.id lease_id c ≡ false
      → (leased_computer x.id lease_id c ≡ true → x ≡ c)
      → later_than x.control_lease_expires_at now ≡ false
      → leased_computer x.id lease_id c ≡ false
  not_leased x going only past = elim (Bool-cases (leased_computer x.id lease_id c)) [
    | inl hit ↦
        let past' : later_than c.control_lease_expires_at now ≡ false = rw (← only hit) past in
        absurd (ground (arith, hit, past', going))
    | inr miss ↦ miss
  ]

  leased-Spared :
      (x : Computer) (bot_id : RowId) (w : World)
      → ended now x.id lease_id c ≡ false
      → (leased_computer x.id lease_id c ≡ true → x ≡ c)
      → In c w.server.db.computers
      → Spared c (expire_leased (λ w. w) outside event_id now x bot_id lease_id w)
  leased-Spared x bot_id w going only i = elim (Option-cases x.control_lease_expires_at) [
    | inl never ↦ rw never (revoke-Spared x bot_id w (not_leased x going only (rw never refl)) i)
    | inr (until, is) ↦ elim (Bool-cases (ltb now until)) [
      | inl later ↦ rw (is, later) i
      | inr past ↦ rw (is, past) (revoke-Spared x bot_id w (not_leased x going only (rw is past)) i)
    ]
  ]

  found-Spared :
      (x : Computer) (w : World)
      → ended now x.id lease_id c ≡ false
      → (leased_computer x.id lease_id c ≡ true → x ≡ c)
      → In c w.server.db.computers
      → Spared c (expire_found (λ w. w) outside event_id now lease_id x w)
  found-Spared x w going only i =
      either (Spared c) (has_value x.control_lease_id lease_id)
        (elim (Option-cases x.control_bot_id) [
          | inl nobody ↦ rw nobody i
          | inr (bot_id, is) ↦ rw is (leased-Spared x bot_id w going only i)
        ])
        i

-- With one row per computer, `expireComputerControl` leaves every row as it is but the one that bears
-- the identifiers of the computer and the lease and whose lease has run out, if nothing else runs in
-- between; whether the provider revokes or throws, and whether the queue accepts the continuation.
pub expire_computer_control-spares :
    (c : Computer) (outside : Outside) (event_id : RowId) (now computer_id lease_id : RowId)
    (w : World)
    → NoClash same_computer w.server.db.computers
    → In c w.server.db.computers
    → ended now computer_id lease_id c ≡ false
    → Spared c (expire_computer_control (λ w. w) outside event_id now computer_id lease_id w)
unfolding expire_computer_control
expire_computer_control-spares c outside event_id now computer_id lease_id w unique i going =
    elim (Option-cases (find_where (λ (x : Computer). x.id == computer_id) w.server.db.computers)) [
      | inl missing ↦ rw (missing, expire_computer_control) i
      | inr (x, found) ↦
          let (j, is) =
            find_where-In (λ (x : Computer). x.id == computer_id) w.server.db.computers found in
          let same : computer_id ≡ x.id = ground arith in
          rw (found, expire_computer_control)
            (found-Spared c outside event_id now lease_id x w (rw (← same) going)
              (λ hit.
                NoClash-eq same_computer (λ a b. ground arith) w.server.db.computers unique j i
                  (ground (arith, hit)))
              i)
    ]
