-- ===== src/LogBuffer/Kept.antt =====
-- logbert/src/log_buffer.py: what holds in every state that the tasks of the buffer can reach.
use aads.Prelude.{
  ℕ, suc, ◌<◌, Bool, true, false, List, [], ◌∷◌, ◌++◌, append_nil, append_assoc, length, leb, ◌≡◌,
  refl, sym, ap, ◌∙◌, inl, inr, ◌⊎◌, arith, Bool-cases, if◌then◌else◌,
}
use aads.LogBuffer.{
  appended, is_full, flush, flush_logs, State, add, tick, stop, enter, leave, Step, adds, ticks,
  stops, enters, leaves, fresh, Reaches, start, after,
}

-- With a callback the logs taken, followed by those in the buffer, are the logs added, in their
-- order, and none is discarded; and a full buffer has a task that waits to flush it.
pub record IsKept {L : Type 0} (s : State L) : Type 0 where
  pub sized : 0 < s.buf.max_size
  pub callback : s.buf.has_callback ≡ true
  pub ordered : s.taken ++ s.buf.buffer ≡ s.added
  pub complete : s.discarded ≡ []
  pub flushing : (length s.buf.buffer < s.buf.max_size) ⊎ (0 < s.waiting)

more_waiting :
    (test : Bool) (n m waiting : ℕ)
    → (n < m) ⊎ (0 < waiting)
    → (n < m) ⊎ (0 < (if test then suc waiting else waiting))
more_waiting true n m waiting h = inr (omega arith)
more_waiting false n m waiting h = h

module _ {L : Type 0} where
  room_or_waiting :
      (max_size waiting : ℕ) (logs : List L)
      → (length logs < max_size)
        ⊎ (0 < (if leb max_size (length logs) then suc waiting else waiting))
  room_or_waiting max_size waiting logs = elim (Bool-cases (leb max_size (length logs))) [
    | inl full ↦ inr (rw (full) (omega arith))
    | inr room ↦ inl (ground arith)
  ]

  add-IsKept : (log : L) (s : State L) → IsKept s → IsKept (add log s)
  unfolding add appended is_full
  add-IsKept log s k = record {
    sized = k.sized;
    callback = k.callback;
    ordered =
        sym (append_assoc s.taken s.buf.buffer (log ∷ []))
        ∙ ap (λ (l : List L). l ++ log ∷ []) k.ordered;
    complete = k.complete;
    flushing = room_or_waiting s.buf.max_size s.waiting (s.buf.buffer ++ log ∷ []);
  }

  tick-IsKept : (now : ℕ) (s : State L) → IsKept s → IsKept (tick now s)
  unfolding tick
  tick-IsKept now s k = record {
    sized = k.sized;
    callback = k.callback;
    ordered = k.ordered;
    complete = k.complete;
    flushing = more_waiting _ (length s.buf.buffer) s.buf.max_size s.waiting k.flushing;
  }

  enter-IsKept :
      (now waiting : ℕ) (s : State L) (logs : List L)
      → s.buf.buffer ≡ logs
      → IsKept s
      → IsKept (enter waiting s (flush_logs now s.buf logs))
  unfolding enter flush_logs
  enter-IsKept now waiting s [] e k = record {
    sized = k.sized;
    callback = k.callback;
    ordered = k.ordered;
    complete = k.complete;
    flushing = inl (rw (e) k.sized);
  }
  enter-IsKept now waiting s (log ∷ logs) e k = rw (k.callback) (record {
    sized = k.sized;
    callback = refl;
    ordered = append_nil (s.taken ++ (log ∷ logs)) ∙ (rw (e) at k.ordered);
    complete = k.complete;
    flushing = inl k.sized;
  })

  stop-IsKept : (s : State L) → IsKept s → IsKept (stop s)
  unfolding stop
  stop-IsKept s k = record {
    sized = k.sized;
    callback = k.callback;
    ordered = k.ordered;
    complete = k.complete;
    flushing = inr (omega arith);
  }

  leave-IsKept : (s : State L) → IsKept s → IsKept (leave s)
  unfolding leave
  leave-IsKept s k = record {
    sized = k.sized;
    callback = k.callback;
    ordered = k.ordered;
    complete = k.complete;
    flushing = k.flushing;
  }

  Step-IsKept : {s t : State L} → Step s t → IsKept s → IsKept t
  unfolding flush
  Step-IsKept (adds log s) k = add-IsKept log s k
  Step-IsKept (ticks now s) k = tick-IsKept now s k
  Step-IsKept (stops s) k = stop-IsKept s k
  Step-IsKept (enters now waiting s _ _) k = enter-IsKept now waiting s s.buf.buffer refl k
  Step-IsKept (leaves s) k = leave-IsKept s k

  reaches-IsKept : {first s : State L} → IsKept first → Reaches first s → IsKept s
  reaches-IsKept k start = k
  reaches-IsKept k (after r step) = Step-IsKept step (reaches-IsKept k r)

-- From a buffer with a callback and a positive size, whatever the tasks do and however they
-- interleave: the batches that the callbacks have taken, followed by the logs in the buffer, are all
-- logs that were added, in their order; none is discarded; and as long as the buffer is full, a task
-- waits to flush it.
pub Reaches-IsKept :
    (L : Type 0) (max_size max_wait now : ℕ)
    → 0 < max_size
    → (s : State L) → Reaches (fresh max_size max_wait now true) s
    → IsKept s
unfolding fresh
Reaches-IsKept L max_size max_wait now sized s r =
    reaches-IsKept
      (record {
        sized = sized;
        callback = refl;
        ordered = refl;
        complete = refl;
        flushing = inl sized;
      })
      r
