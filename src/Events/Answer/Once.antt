-- ===== src/Events/Answer/Once.antt =====
-- `answerRunInput`: a run takes one answer for each time that it asks.
use mathlib.Core.Path.{subst}
use grok_bot_v.Prelude.{
  ℕ, ◌≡◌, refl, Bool, true, false, Option, none, some, List, [], ◌∷◌, arith, any, find_where,
  update_where, if◌then◌else◌,
}
use grok_bot_v.RunState.{queued}
use grok_bot_v.Store.Blocks.{RowId}
use grok_bot_v.Store.Schema.{Db, Run, Message, ExternalEffect}
use grok_bot_v.Store.Tables.{runs}
use grok_bot_v.Store.Tx.{Tx, ok, ◌>>=◌, pure, or_null, null_unless, update_many, find_first}
use grok_bot_v.Store.Tx.Keeps.{Keeps, bind-eq-ok, ok-injective}
use grok_bot_v.Events.Server.{Publication}
use grok_bot_v.Events.Transitions.{Leaves-record_answer}
use grok_bot_v.Events.Answer.{AnswerRunInput, waiting_run, record_answer, answer_in_transaction}

-- If `m` returns something, it leaves a database in which `P` holds.
record MakesSome {A : Type 0} (P : Db → Type 0) (m : Tx (Option A)) : Type 0 where
  at : (db : Db) {a : A} {db' : Db} → m db ≡ ok (some a, db') → P db'

module _ {P : Db → Type 0} {A : Type 0} where
  MakesSome-null : MakesSome P (pure {A = Option A} none)
  unfolding pure
  MakesSome-null = record { at = λ db e. let (same, _) = ok-injective e in cc }

  MakesSome-bind :
      {B : Type 0} (m : Tx B) (f : B → Tx (Option A))
      → ((b : B) → MakesSome P (f b))
      → MakesSome P (m >>= f)
  unfolding ◌>>=◌
  MakesSome-bind m f kf = record {
    at = λ db e. let (b, db₁, _, rest) = bind-eq-ok (m db) f e in (kf b).at db₁ rest;
  }

  MakesSome-or_null :
      {B : Type 0} (o : Option B) (k : B → Tx (Option A))
      → ((b : B) → MakesSome P (k b))
      → MakesSome P (or_null o k)
  MakesSome-or_null none k kk = MakesSome-null
  MakesSome-or_null (some b) k kk = kk b

  MakesSome-if :
      (b : Bool) (m n : Tx (Option A))
      → MakesSome P m
      → MakesSome P n
      → MakesSome P (if b then m else n)
  MakesSome-if true m n km kn = km
  MakesSome-if false m n km kn = kn

  MakesSome-first :
      {B : Type 0} (m : Tx B) (f : B → Tx (Option A))
      → ((db : Db) (b : B) (db₁ : Db) → m db ≡ ok (b, db₁) → P db₁)
      → ((b : B) → Keeps P (f b))
      → MakesSome P (m >>= f)
  unfolding ◌>>=◌
  MakesSome-first m f km kf = record {
    at = λ db e.
        let (b, db₁, first, rest) = bind-eq-ok (m db) f e in (kf b).at db₁ (km db b db₁ first) rest;
  }

-- No run waits under the input any more.
abbrev Taken : AnswerRunInput → Db → Type 0
Taken input db = any (waiting_run input) db.runs ≡ false

queue-none :
    (input : AnswerRunInput) (rs : List Run)
    → any
        (waiting_run input)
        (update_where (waiting_run input) (λ r. record r { status = queued }) rs)
      ≡ false
queue-none input [] = refl
queue-none input (r ∷ rs) = ground (arith, queue-none input rs)

queue_run :
    (input : AnswerRunInput) (db : Db) (n : ℕ) (db₁ : Db)
    → update_many runs (waiting_run input) (λ r. record r { status = queued }) db ≡ ok (n, db₁)
    → Taken input db₁
unfolding update_many
queue_run input db n db₁ e = subst (Taken input) (ok-injective e).1 (queue-none input db.runs)

Keeps-record :
    (id : RowId) (input : AnswerRunInput) (run : Run) (m : Message) (effect : Option ExternalEffect)
    → Keeps (Taken input) (record_answer id input run m effect)
Keeps-record id input run m effect = record {
  at = λ db h e.
      let same = (Leaves-record_answer id input run m effect db.runs).at db refl e in rw same h;
}

Keeps-null : (input : AnswerRunInput) → Keeps (Taken input) (pure {A = Option Publication} none)
unfolding pure
Keeps-null input = record { at = λ db h e. subst (Taken input) (ok-injective e).1 h }

Keeps-choice :
    (input : AnswerRunInput) (b : Bool) (m : Tx (Option Publication))
    → Keeps (Taken input) m
    → Keeps (Taken input) (null_unless b m)
Keeps-choice input true m k = k
Keeps-choice input false m k = Keeps-null input

MakesSome-answer :
    (id : RowId) (input : AnswerRunInput) → MakesSome (Taken input) (answer_in_transaction id input)
unfolding answer_in_transaction
MakesSome-answer id input =
    search
      (
        MakesSome-first, MakesSome-bind, MakesSome-or_null, MakesSome-if, MakesSome-null, queue_run,
        Keeps-record, Keeps-choice,
      )
      depth 30

find-none : (p : Run → Bool) (rs : List Run) → any p rs ≡ false → find_where p rs ≡ none
find-none p [] e = refl
find-none p (x ∷ xs) e = ground (arith, find-none p xs)

-- An answer that meets no run.
answer-none :
    (id : RowId) (input : AnswerRunInput) (db : Db)
    → any (waiting_run input) db.runs ≡ false
    → answer_in_transaction id input db ≡ ok (none, db)
unfolding answer_in_transaction ◌>>=◌ find_first pure
answer-none id input db e = rw (find-none (waiting_run input) db.runs e) refl

-- Once an answer to a run has committed, another answer to the run, in the database that the first
-- left, is refused and changes nothing, whatever it says.
pub answer_in_transaction-once :
    (id later : RowId) (input : AnswerRunInput) (other : AnswerRunInput) (db : Db) {p : Publication}
    {db' : Db}
    → answer_in_transaction id input db ≡ ok (some p, db')
    → other.run_id ≡ input.run_id
    → other.workspace_id ≡ input.workspace_id
    → other.thread_id ≡ input.thread_id
    → answer_in_transaction later other db' ≡ ok (none, db')
answer_in_transaction-once id later input other db {p} {db'} e run workspace thread =
    let taken : any (waiting_run input) db'.runs ≡ false = (MakesSome-answer id input).at db e in
    let taken' : any (waiting_run other) db'.runs ≡ false = rw (run, workspace, thread) taken in
    answer-none later other db' taken'
