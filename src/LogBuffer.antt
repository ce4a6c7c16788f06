-- ===== src/LogBuffer.antt =====
-- logbert/src/log_buffer.py: `LogBuffer`, as tasks of one event loop run it. A task gives way only
-- where it awaits: at the lock of `flush` and in the callback, which may take any time and whose
-- exceptions `flush` swallows. Times are in milliseconds.
pub mod Kept
use aads.Prelude.{
  ℕ, suc, ◌+◌, Bool, true, false, not, ◌&&◌, Option, none, some, List, [], ◌∷◌, ◌++◌, length, leb,
  ◌≡◌, if◌then◌else◌,
}

pub record Buffer (L : Type 0) : Type 0 where
  pub max_size : ℕ
  pub max_wait : ℕ
  pub buffer : List L
  pub last_flush : ℕ
  pub has_callback : Bool

-- What `flush` does once it holds the lock: nothing, or the logs are discarded, or the callback is
-- called with them, during which the lock is held.
pub data Flushed (L : Type 0) : Type 0 where
  nothing : Flushed L
  discard : Buffer L → Flushed L
  call : List L → Buffer L → Flushed L

module _ {L : Type 0} where
  -- `self.buffer.append(log)`
  unfoldable pub appended : L → Buffer L → Buffer L
  appended log b = record b { buffer = b.buffer ++ log ∷ [] }

  -- `len(self.buffer) >= self.max_size`
  unfoldable pub is_full : Buffer L → Bool
  is_full b = leb b.max_size (length b.buffer)

  abbrev is_empty : List L → Bool
  is_empty [] = true
  is_empty (_ ∷ _) = false

  -- the test of `_timer_loop`
  unfoldable pub is_due : ℕ → Buffer L → Bool
  is_due now b = not (is_empty b.buffer) && leb (b.last_flush + b.max_wait) now

  unfoldable pub flush_logs : ℕ → Buffer L → List L → Flushed L
  flush_logs now b [] = nothing
  flush_logs now b (log ∷ logs) =
      if b.has_callback
      then call (log ∷ logs) (record b { buffer = []; last_flush = now })
      else discard (record b { buffer = [] })

  unfoldable pub flush : ℕ → Buffer L → Flushed L
  flush now b = flush_logs now b b.buffer

-- The buffer, the tasks that wait for the lock of `flush`, the batch of the callback that runs, and
-- all logs so far that were added, that callbacks have taken, and that were discarded.
pub record State (L : Type 0) : Type 0 where
  pub buf : Buffer L
  pub waiting : ℕ
  pub running : Option (List L)
  pub added : List L
  pub taken : List L
  pub discarded : List L

module _ {L : Type 0} where
  -- `add`: the log is appended, and `flush` is called if the buffer is full
  unfoldable pub add : L → State L → State L
  unfolding appended is_full
  add log s =
      let b : Buffer L = appended log s.buf in
      record s {
        buf = b;
        added = s.added ++ log ∷ [];
        waiting = if is_full b then suc s.waiting else s.waiting;
      }

  -- one round of `_timer_loop`
  unfoldable pub tick : ℕ → State L → State L
  unfolding is_due
  tick now s = record s { waiting = if is_due now s.buf then suc s.waiting else s.waiting }

  -- the final flush of `stop`
  unfoldable pub stop : State L → State L
  stop s = record s { waiting = suc s.waiting }

  -- a task that waited gets the lock: `waiting` is the number of those that still wait
  unfoldable pub enter : ℕ → State L → Flushed L → State L
  enter waiting s nothing = record s { waiting = waiting }
  enter waiting s (discard b) = record s {
    buf = b;
    waiting = waiting;
    discarded = s.discarded ++ s.buf.buffer;
  }
  enter waiting s (call logs b) = record s {
    buf = b;
    waiting = waiting;
    running = some logs;
    taken = s.taken ++ logs;
  }

  -- the callback returns or raises, and the lock is released
  unfoldable pub leave : State L → State L
  leave s = record s { running = none }

  pub data Step : State L → State L → Type 0 where
    adds : (log : L) (s : State L) → Step s (add log s)
    ticks : (now : ℕ) (s : State L) → Step s (tick now s)
    stops : (s : State L) → Step s (stop s)
    enters :
        (now waiting : ℕ) (s : State L)
        → s.waiting ≡ suc waiting
        → s.running ≡ none
        → Step s (enter waiting s (flush now s.buf))
    leaves : (s : State L) → Step s (leave s)

  -- the state after `__init__` and the assignment of the callback
  unfoldable pub fresh : ℕ → ℕ → ℕ → Bool → State L
  fresh max_size max_wait now has_callback = record {
    buf = record {
      max_size = max_size;
      max_wait = max_wait;
      buffer = [];
      last_flush = now;
      has_callback = has_callback;
    };
    waiting = 0;
    running = none;
    added = [];
    taken = [];
    discarded = [];
  }

  pub data Reaches (first : State L) : State L → Type 0 where
    start : Reaches first first
    after : {s t : State L} → Reaches first s → Step s t → Reaches first t
