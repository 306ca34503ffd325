-- ===== src/Runtime/Stream/Flush.antt =====
-- What becomes of the data when a writer of src/runtime/stream.rs closes.
use mathlib.Core.List.{append_assoc, append-nil}
use nano_rs.Common.{
  ℕ, zero, suc, ◌≡◌, refl, sym, ap, ◌∙◌, inl, inr, true, false, List, [], ◌∷◌, ◌++◌, length,
  length-append, All, arith,
}
use nano_rs.Runtime.Stream.{
  StreamCommand, write_chunk, close_command, abort_command, Channel, IsFifo, buffer_sink, ok,
  WritableStream, Task, send, drop, finish, close, handle, round,
}
use nano_rs.Runtime.Stream.Buffer.{
  Op, open_writer, IsWrite, chunks, run, start, run-Flows, start-Flows, round_write,
}

length-close : (q : List StreamCommand) → length (q ++ (close_command ∷ [])) ≡ suc (length q)
length-close q = omega (arith, length-append q (close_command ∷ []))

module _ (ch : Channel) where
  -- Rounds of the task while nobody writes.
  unfoldable pub rounds :
      ℕ → WritableStream ch → Task ch buffer_sink → WritableStream ch × Task ch buffer_sink
  rounds zero s t = (s, t)
  rounds (suc n) s t = let (s', t') = round ch buffer_sink s t in rounds n s' t'

  module _ (fifo : IsFifo ch) where
    -- The chunks in front of a close reach the buffer, and the task ends.
    rounds-close :
        (q : List StreamCommand) (s : WritableStream ch) (t : Task ch buffer_sink)
        → All IsWrite q
        → t.running ≡ true
        → ch.queue s.channel ≡ q ++ (close_command ∷ [])
        → ((rounds (suc (length q)) s t).1.state ≡ t.state ++ chunks q)
          × ((rounds (suc (length q)) s t).1.running ≡ false)
    unfolding rounds round handle chunks
    rounds-close [] s t w runs e =
        rw (round, runs, (fifo.recv_first close_command [] s.channel e).0)
          (sym (append-nil t.state), refl)
    rounds-close (write_chunk c ∷ q) s t w runs e =
        let (_, rest, _) =
          fifo.recv_first (write_chunk c) (q ++ (close_command ∷ [])) s.channel e in
        let (text, ended) =
          rounds-close q (record s { channel = (ch.recv s.channel).0 })
            (record { state = t.state ++ c; running = true }) w.1 refl rest in
        rw (rounds, round_write ch fifo s t c (q ++ (close_command ∷ [])) runs e)
          (text ∙ append_assoc t.state c (chunks q), ended)
    rounds-close (close_command ∷ q) s t w runs e = absurd w.0
    rounds-close (abort_command reason ∷ q) s t w runs e = absurd w.0

    closed_stream : WritableStream ch → WritableStream ch
    closed_stream s = record s {
      channel = (ch.send close_command s.channel).0;
      closed = true;
      locked = false;
    }

    close_ok :
        (s s' : WritableStream ch)
        → ch.receiving s.channel ≡ true
        → close ch open_writer s ≡ (s', ok)
        → (ch.queue s'.channel ≡ ch.queue s.channel ++ (close_command ∷ [])) × (s'.closed ≡ true)
    unfolding closed_stream close send finish drop
    close_ok s s' v e = elim (fifo.send_open close_command s.channel v) [
      | inl none_left ↦ cc (rw (close, send, none_left) at e)
      | inr (done, queued, _) ↦
          let sent : close ch open_writer s ≡ (closed_stream s, ok) = rw (close, send, done) refl in
          let same : s' ≡ closed_stream s = ap (λ x. x.0) (sym e ∙ sent) in
          (ap (λ x. ch.queue x.channel) same ∙ queued, ap (λ x. x.closed) same)
    ]

    -- Of the in-memory buffer: once a close has succeeded, after any writes and rounds of the task,
    -- as many rounds as there are commands in the channel end the task, with exactly what the
    -- writes accepted in the buffer.
    pub close_flushes :
        (ops : List Op) (s : WritableStream ch)
        → close ch open_writer (run ch (start ch) ops).stream ≡ (s, ok)
        → let (s', t) = rounds (length (ch.queue s.channel)) s (run ch (start ch) ops).task in
          (t.state ≡ (run ch (start ch) ops).accepted) × (t.running ≡ false) × (s.closed ≡ true)
    close_flushes ops s e =
        let v = run-Flows ch fifo ops (start ch) (start-Flows ch fifo) in
        let (queued, closed) = close_ok (run ch (start ch) ops).stream s v.receiving e in
        let y = run ch (start ch) ops in
        let count : length (ch.queue s.channel) ≡ suc (length (ch.queue y.stream.channel)) =
          ap length queued ∙ length-close (ch.queue y.stream.channel) in
        let (text, ended) =
          rounds-close (ch.queue y.stream.channel) s y.task v.writes v.running queued in
        rw count (text ∙ v.conserved, ended, closed)
