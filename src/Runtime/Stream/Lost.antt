-- ===== src/Runtime/Stream/Lost.antt =====
-- What becomes of the data when a writer of src/runtime/stream.rs is dropped without a close.
use mathlib.Core.List.{append_assoc, append-nil}
use nano_rs.Common.{
  ◌≡◌, refl, sym, ap, ◌∙◌, inl, inr, true, false, Option, some, List, [], ◌∷◌, ◌++◌, Text, All,
  arith,
}
use nano_rs.Runtime.Stream.{
  StreamCommand, write_chunk, close_command, abort_command, delivered, Channel, IsFifo, buffer_sink,
  WritableStream, Task, send, write, drop, get_writer, handle, round, in_memory_buffer, new, spawn,
  dropped,
}
use nano_rs.Runtime.Stream.Buffer.{
  Op, put, work, open_writer, IsWrite, chunks, System, step, run, start, Flows, run-Flows,
  start-Flows, round_write, run_flags,
}

module _ (ch : Channel) where
  -- An abort is in the channel, behind the chunks that were accepted before it; or the task ended.
  data Doomed (text : Text) (s : WritableStream ch) (t : Task ch buffer_sink) : Type 0 where
    on_its_way :
        (q r : List StreamCommand) (reason : Option Text)
        → All IsWrite q
        → t.running ≡ true
        → ch.receiving s.channel ≡ true
        → ch.queue s.channel ≡ q ++ (abort_command reason ∷ r)
        → t.state ++ chunks q ≡ text
        → Doomed text s t
    ended : t.running ≡ false → t.state ≡ text → Doomed text s t

  module _ (fifo : IsFifo ch) where
    put-Doomed :
        (text : Text) (y : System ch) (chunk : Text)
        → Doomed text y.stream y.task
        → Doomed text (step ch y (put chunk)).stream (step ch y (put chunk)).task
    unfolding step write send
    put-Doomed text y chunk (ended stopped same) = ended stopped same
    put-Doomed text y chunk (on_its_way q r reason w runs receiving queue same) =
        elim (fifo.send_open (write_chunk chunk) y.stream.channel receiving) [
          | inl none_left ↦ rw none_left (on_its_way q r reason w runs receiving queue same)
          | inr (done, queued, still) ↦
              on_its_way q (r ++ (write_chunk chunk ∷ [])) reason w runs still
                (queued
                  ∙ ap (λ x. x ++ (write_chunk chunk ∷ [])) queue
                  ∙ append_assoc q (abort_command reason ∷ r) (write_chunk chunk ∷ []))
                same
        ]

    work-Doomed :
        (text : Text) (y : System ch)
        → Doomed text y.stream y.task
        → Doomed text (step ch y work).stream (step ch y work).task
    unfolding step round handle chunks
    work-Doomed text y (ended stopped same) = rw (step, round, stopped) (ended refl same)
    work-Doomed text y (on_its_way [] r reason w runs receiving queue same) =
        rw (step, round, runs, (fifo.recv_first (abort_command reason) r y.stream.channel queue).0)
          (ended refl (sym (append-nil y.task.state) ∙ same))
    work-Doomed text y (on_its_way (write_chunk c ∷ q) r reason w runs receiving queue same) =
        let (_, rest, still) =
          fifo.recv_first (write_chunk c) (q ++ (abort_command reason ∷ r)) y.stream.channel
            queue in
        rw
          (step, round_write ch fifo y.stream y.task c (q ++ (abort_command reason ∷ r)) runs queue)
          (on_its_way q r reason w.1 refl (still ∙ receiving) rest
            (append_assoc y.task.state c (chunks q) ∙ same))
    work-Doomed text y (on_its_way (close_command ∷ q) r reason w runs receiving queue same) =
        absurd w.0
    work-Doomed text y (on_its_way (abort_command x ∷ q) r reason w runs receiving queue same) =
        absurd w.0

    run-Doomed :
        (text : Text) (ops : List Op) (y : System ch)
        → Doomed text y.stream y.task
        → Doomed text (run ch y ops).stream (run ch y ops).task
    unfolding run
    run-Doomed text [] y d = d
    run-Doomed text (put chunk ∷ ops) y d =
        run-Doomed text ops (step ch y (put chunk)) (put-Doomed text y chunk d)
    run-Doomed text (work ∷ ops) y d = run-Doomed text ops (step ch y work) (work-Doomed text y d)

    Doomed-prefix :
        (text : Text) (s : WritableStream ch) (t : Task ch buffer_sink)
        → Doomed text s t
        → (rest : Text) × (t.state ++ rest ≡ text)
    Doomed-prefix text s t (on_its_way q r reason w runs receiving queue same) = (chunks q, same)
    Doomed-prefix text s t (ended stopped same) = ([], append-nil t.state ∙ same)

    drop-Doomed :
        (y : System ch)
        → Flows ch y
        → (ch.send (abort_command (some dropped)) y.stream.channel).1 ≡ delivered
        → Doomed y.accepted (drop ch open_writer y.stream) y.task
    unfolding drop send
    drop-Doomed y v done =
        elim (fifo.send_open (abort_command (some dropped)) y.stream.channel v.receiving) [
          | inl none_left ↦ cc (ap (λ x. x.1) (sym none_left) ∙ done)
          | inr (_, queued, still) ↦
              on_its_way (ch.queue y.stream.channel) [] (some dropped) v.writes v.running still
                queued v.conserved
        ]

    reopened :
        (s : WritableStream ch)
        → s.closed ≡ false
        → s.aborted ≡ false
        → (get_writer ch (drop ch open_writer s)).1 ≡ some open_writer
    unfolding get_writer drop send
    reopened s c a = ground arith

    start_flags : ((start ch).stream.closed ≡ false) × ((start ch).stream.aborted ≡ false)
    unfolding start in_memory_buffer new spawn
    start_flags = (refl, refl)

    -- Of the in-memory buffer, once a writer was dropped without a close after any writes and rounds
    -- of the task, with room for the abort: the stream can be locked by a new writer, and whatever
    -- this one writes, the buffer holds no more than what was accepted before.
    pub write_after_drop :
        (ops later : List Op)
        → let y = run ch (start ch) ops in
          let s = drop ch open_writer y.stream in
          (ch.send (abort_command (some dropped)) y.stream.channel).1 ≡ delivered
          → ((get_writer ch s).1 ≡ some open_writer)
            × ((rest : Text) × ((run ch (record y { stream = s }) later).task.state ++ rest
                  ≡ y.accepted))
    write_after_drop ops later done =
        let y = run ch (start ch) ops in
        let (closed, aborted) = run_flags ch ops (start ch) in
        let v = run-Flows ch fifo ops (start ch) (start-Flows ch fifo) in
        let s = drop ch open_writer y.stream in
        (
          reopened y.stream (closed ∙ start_flags.0) (aborted ∙ start_flags.1),
          Doomed-prefix y.accepted _ _
              (run-Doomed y.accepted later (record y { stream = s }) (drop-Doomed y v done)),
        )
