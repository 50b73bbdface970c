-- ===== src/JobQueue/Keeps.antt =====
-- Every call of a job queue keeps its index and its handles coupled to its timers.
use mathlib.Core.Option
use mathlib.Core.Path.{subst}
use grok_bot_v.Prelude.{
  ℕ, suc, ◌+◌, ◌<◌, ◌≡◌, refl, sym, ap, ◌∙◌, String, Bool, true, false, Option, none, some, List,
  [], ◌∷◌, map, if◌then◌else◌, ◌==◌, leb, text_is, any, delete_where, find_where, has_value, All,
  In, here, there, NoClash, find_where-In, find_where-none, any-none, any-of, In-map_of, ==_iff,
  ==_refl, Option-cases, if_both, inl, inr, arith,
}
use grok_bot_v.Prelude.Pairs.{All-In}
use grok_bot_v.JobQueue.{
  BackgroundJob, Timer, Queue, key_of, delay, timeout_ms, dispatch, is_timer, lookup, clear_timeout,
  cancel, cancel_if, schedule, set_key, enqueue, forget_key, fire_found, fire, start, stop, close,
  empty_queue,
}
use grok_bot_v.JobQueue.Schedule.{Op, enqueues, cancels, fires, starts, stops, closes, step, run}
use grok_bot_v.JobQueue.Coupling.{
  has_key, IsCoupled, same_id, same_key, same_text, id_of, its_key, its_handle, index-remove,
  index-unkeyed, removed, cancel-cases, cancel-IsCoupled, lookup-remove, text_is-some,
  find_where-delete_all,
}

pub cancel-clears :
    (key : String) (q : Queue)
    → IsCoupled q
    → find_where (has_key key) ((cancel key q).pending) ≡ none
cancel-clears key q c = elim (cancel-cases key q c) [
  | inl (same, nothing) ↦ ap (λ (r : Queue). find_where (has_key key) r.pending) same ∙ nothing
  | inr (t, i, e, same) ↦
      ap (λ (r : Queue). find_where (has_key key) r.pending) same
      ∙ find_where-delete_all (is_timer t.id) (has_key key) q.pending (λ x j k.
        subst (λ (y : Timer). is_timer t.id y ≡ true)
          (sym (its_key q c t i key (text_is-some (key_of t.job) key e) x j k)) (==_refl t.id))
]

abbrev Free : Option String → Queue → Type 0
Free none q = Unit {0}
Free (some key) q = find_where (has_key key) q.pending ≡ none

pub cancel_if-Free :
    (o : Option String) (q : Queue)
    → IsCoupled q
    → IsCoupled (cancel_if o q) × Free o (cancel_if o q)
cancel_if-Free none q c = (c, tt)
cancel_if-Free (some key) q c = (cancel-IsCoupled key q c, cancel-clears key q c)

not_shared :
    (o : Option String) (q : Queue)
    → Free o q
    → (t : Timer) → In t q.pending
    → same_text o (key_of t.job) ≡ false
not_shared none q free t i = refl
not_shared (some key) q free t i = find_where-none (has_key key) q.pending free i

index-set :
    (o : Option String) (q : Queue) (new : Timer) (other : String)
    → lookup other q.keyed ≡ Option.map id_of (find_where (has_key other) q.pending)
    → lookup other (set_key o new.id q.keyed)
      ≡ Option.map id_of
          (if text_is o other then some new else find_where (has_key other) q.pending)
index-set none q new other e = e
index-set (some key) q new other e = ground (arith, lookup-remove other key q.keyed, e)

All-later :
    (n : ℕ) (ts : List Timer)
    → All (λ (t : Timer). t.id < n) ts
    → All (λ (t : Timer). t.id < suc n) ts
All-later n [] h = tt
All-later n (t ∷ ts) h = (omega (arith, h.0), All-later n ts h.1)

schedule-IsCoupled :
    (now : ℕ) (job : BackgroundJob) (q : Queue)
    → IsCoupled q
    → Free (key_of job) q
    → IsCoupled (schedule now job q)
schedule-IsCoupled now job q c free =
    let new : Timer = record {
      id = q.next_id;
      due = now + timeout_ms (delay job.available_at now);
      job = job;
    } in
    record {
      ids = (
        any-none (same_id new) q.pending (λ t i.
            let lt = All-In (λ (t : Timer). t.id < q.next_id) q.pending c.fresh i in ground arith),
        c.ids,
      );
      keys = (any-none (same_key new) q.pending (not_shared (key_of job) q free), c.keys);
      fresh = (omega arith, All-later q.next_id q.pending c.fresh);
      index = λ other. index-set (key_of job) q new other (c.index other);
      handles = ap (λ l. q.next_id ∷ l) c.handles;
    }

pub enqueue-IsCoupled :
    (now : ℕ) (job : BackgroundJob) (q : Queue) → IsCoupled q → IsCoupled (enqueue now job q)
unfolding enqueue
enqueue-IsCoupled now job q c =
    let (coupled, free) = cancel_if-Free (key_of job) q c in
    if_both IsCoupled q.closed c
      (schedule-IsCoupled now job (cancel_if (key_of job) q) coupled free)

forget-index :
    (o : Option String) (q : Queue) (t : Timer) (c : IsCoupled q) (i : In t q.pending)
    → key_of t.job ≡ o
    → (other : String)
    → lookup other (forget_key o t.id q.keyed)
      ≡ Option.map id_of (find_where (has_key other) (clear_timeout t.id q.pending))
forget-index none q t c i e other = index-unkeyed q c t i e other
forget-index (some key) q t c i e other =
    let held : has_value (lookup key q.keyed) t.id ≡ true =
      ap (λ o. has_value o t.id) (its_handle q c t i key e) ∙ ==_refl t.id in
    rw held (index-remove q c t i key e other)

pub fire_found-IsCoupled :
    (now : ℕ) (q : Queue) (t : Timer)
    → IsCoupled q
    → In t q.pending
    → IsCoupled (fire_found now t.id (some t) q)
fire_found-IsCoupled now q t c i =
    if_both IsCoupled (leb t.due now)
      (removed q c t i (forget_key (key_of t.job) t.id q.keyed)
        (forget-index (key_of t.job) q t c i refl) (dispatch q.started t.job.payload q.dispatched))
      c

pub fire-IsCoupled : (now id : ℕ) (q : Queue) → IsCoupled q → IsCoupled (fire now id q)
unfolding fire
fire-IsCoupled now id q c = elim (Option-cases (find_where (is_timer id) q.pending)) [
  | inl nothing ↦ rw nothing c
  | inr (t, found) ↦
      let (i, e) = find_where-In (is_timer id) q.pending found in
      subst (λ (o : Option Timer). IsCoupled (fire_found now id o q)) (sym found)
        (subst (λ (n : ℕ). IsCoupled (fire_found now n (some t) q)) ((==_iff t.id id).0 e)
          (fire_found-IsCoupled now q t c i))
]

delete_where-all {ℓ} :
    {A : Type ℓ} (p : A → Bool) (xs : List A)
    → ((x : A) → In x xs → p x ≡ true)
    → delete_where p xs ≡ []
delete_where-all p [] h = refl
delete_where-all p (x ∷ xs) h = rw (h x (here refl)) (delete_where-all p xs (λ y i. h y (there i)))

-- A stop clears every timer, since each is among the handles.
pub stop-empties : (q : Queue) → IsCoupled q → (stop q).pending ≡ []
unfolding stop
stop-empties q c =
    delete_where-all (λ (t : Timer). any (λ id. id == t.id) q.timers) q.pending
      (λ t i.
        subst (λ (ids : List ℕ). any (λ id. id == t.id) ids ≡ true) (sym c.handles)
          (any-of (λ id. id == t.id) (map id_of q.pending) (In-map_of id_of q.pending i)
            (==_refl t.id)))

pub stop-IsCoupled : (q : Queue) → IsCoupled q → IsCoupled (stop q)
unfolding stop
stop-IsCoupled q c = record {
  ids = subst (NoClash same_id) (sym (stop-empties q c)) tt;
  keys = subst (NoClash same_key) (sym (stop-empties q c)) tt;
  fresh = subst (All (λ (t : Timer). t.id < q.next_id)) (sym (stop-empties q c)) tt;
  index = λ key.
      ap (λ (ts : List Timer). Option.map id_of (find_where (has_key key) ts))
        (sym (stop-empties q c));
  handles = ap (map id_of) (sym (stop-empties q c));
}

pub IsCoupled-of :
    (q : Queue) (started closed : Bool)
    → IsCoupled q
    → IsCoupled (record q { started = started; closed = closed })
IsCoupled-of q started closed c = record {
  ids = c.ids;
  keys = c.keys;
  fresh = c.fresh;
  index = c.index;
  handles = c.handles;
}

pub close-IsCoupled : (q : Queue) → IsCoupled q → IsCoupled (close q)
unfolding close
close-IsCoupled q c =
    if_both IsCoupled q.closed c
      (stop-IsCoupled (record q { closed = true }) (IsCoupled-of q q.started true c))

pub step-IsCoupled : (op : Op) (q : Queue) → IsCoupled q → IsCoupled (step op q)
unfolding step start
step-IsCoupled (enqueues now job) q c = enqueue-IsCoupled now job q c
step-IsCoupled (cancels key) q c = cancel-IsCoupled key q c
step-IsCoupled (fires now id) q c = fire-IsCoupled now id q c
step-IsCoupled starts q c = IsCoupled-of q true q.closed c
step-IsCoupled stops q c = stop-IsCoupled q c
step-IsCoupled closes q c = close-IsCoupled q c

IsCoupled-run : (ops : List Op) (q : Queue) → IsCoupled q → IsCoupled (run ops q)
unfolding run
IsCoupled-run [] q c = c
IsCoupled-run (op ∷ ops) q c = IsCoupled-run ops (step op q) (step-IsCoupled op q c)

pub empty_queue-IsCoupled : IsCoupled empty_queue
empty_queue-IsCoupled = record {
  ids = tt;
  keys = tt;
  fresh = tt;
  index = λ key. refl;
  handles = refl;
}

-- After any sequence of calls and firings from an empty queue, in which no call begins while an
-- `enqueue` waits: no two pending timers share a handle or a key, the index has for each key the handle
-- of the pending timer with that key and nothing else, and the set of handles is that of the pending
-- timers.
pub run-IsCoupled : (ops : List Op) → IsCoupled (run ops empty_queue)
run-IsCoupled ops = IsCoupled-run ops empty_queue empty_queue-IsCoupled
