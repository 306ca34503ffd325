-- ===== src/Runtime/Stream/Buffer.antt =====
-- `in_memory_buffer` of src/runtime/stream.rs, over the calls of its writer and the rounds of its
-- task in any order.
use mathlib.Core.List.{append_assoc, append-nil}
use nano_rs.Common.{
  ◌≡◌, refl, sym, subst, ap, ◌∙◌, inl, inr, true, false, List, [], ◌∷◌, ◌++◌, Text, All, All-append,
  arith,
}
use nano_rs.Runtime.Stream.{
  StreamCommand, write_chunk, close_command, abort_command, Channel, IsFifo, buffer_sink, Reply, ok,
  err, pending, Writer, WritableStream, Task, new, send, write, reply_of, handle, round, spawn,
  in_memory_buffer,
}

-- A write of an open writer, or a round of the task.
pub data Op : Type 0 where
  put : (chunk : Text) → Op
  work : Op

abbrev pub open_writer : Writer
open_writer = record { is_closed = false }

abbrev pub IsWrite : StreamCommand → Type 0
IsWrite (write_chunk chunk) = Unit
IsWrite close_command = ⊥
IsWrite (abort_command reason) = ⊥

-- The chunks of the commands, in order.
unfoldable pub chunks : List StreamCommand → Text
chunks [] = []
chunks (write_chunk chunk ∷ q) = chunk ++ chunks q
chunks (close_command ∷ q) = chunks q
chunks (abort_command reason ∷ q) = chunks q

-- What a write adds to the accepted text.
abbrev pub accept : Reply → Text → Text → Text
accept ok chunk text = text ++ chunk
accept (err e) chunk text = text
accept pending chunk text = text

chunks-append : (q r : List StreamCommand) → chunks (q ++ r) ≡ chunks q ++ chunks r
unfolding chunks
chunks-append [] r = refl
chunks-append (write_chunk c ∷ q) r =
    ap (λ t. c ++ t) (chunks-append q r) ∙ sym (append_assoc c (chunks q) (chunks r))
chunks-append (close_command ∷ q) r = chunks-append q r
chunks-append (abort_command reason ∷ q) r = chunks-append q r

one_chunk : (c : Text) → chunks (write_chunk c ∷ []) ≡ c
unfolding chunks
one_chunk c = append-nil c

pub chunks-cons : (c : Text) (q : List StreamCommand) → chunks (write_chunk c ∷ q) ≡ c ++ chunks q
unfolding chunks
chunks-cons c q = refl

module _ (ch : Channel) where
  pub record System : Type 0 where
    pub stream : WritableStream ch
    pub task : Task ch buffer_sink
    pub accepted : Text

  unfoldable pub step : System → Op → System
  step y (put chunk) =
      let (s, r) = write ch chunk open_writer y.stream in
      record y { stream = s; accepted = accept r chunk y.accepted }
  step y work =
      let (s, t) = round ch buffer_sink y.stream y.task in record y { stream = s; task = t }

  unfoldable pub run : System → List Op → System
  run y [] = y
  run y (op ∷ ops) = run (step y op) ops

  unfoldable pub start : System
  start = let (s, t) = in_memory_buffer ch in record { stream = s; task = t; accepted = [] }

  -- The task runs, and what was accepted is in the buffer or in the channel.
  pub record Flows (y : System) : Type 0 where
    pub receiving : ch.receiving y.stream.channel ≡ true
    pub running : y.task.running ≡ true
    pub writes : All IsWrite (ch.queue y.stream.channel)
    pub conserved : y.task.state ++ chunks (ch.queue y.stream.channel) ≡ y.accepted

  module _ (fifo : IsFifo ch) where
    pub start-Flows : Flows start
    unfolding start in_memory_buffer new spawn chunks
    start-Flows = record {
      receiving = fifo.new_receiving 4;
      running = refl;
      writes = subst (All IsWrite) (sym (fifo.new_queue 4)) tt;
      conserved = ap chunks (fifo.new_queue 4);
    }

    put-Flows : (y : System) (chunk : Text) → Flows y → Flows (step y (put chunk))
    unfolding step write send
    put-Flows y chunk v = elim (fifo.send_open (write_chunk chunk) y.stream.channel v.receiving) [
      | inl none_left ↦ rw none_left v
      | inr (done, queued, still) ↦ record {
        receiving = still;
        running = v.running;
        writes = subst (All IsWrite) (sym queued) (
            All-append IsWrite (ch.queue y.stream.channel) (write_chunk chunk ∷ []) v.writes
              (tt, tt));
        conserved =
            ap (λ q. y.task.state ++ chunks q) queued
            ∙ put_text y.task.state (ch.queue y.stream.channel) chunk
            ∙ ap (λ t. t ++ chunk) v.conserved
            ∙ ap (λ r. accept (reply_of ch r) chunk y.accepted) (sym done);
      }
    ]
      where
        put_text :
            (a : Text) (q : List StreamCommand) (c : Text)
            → a ++ chunks (q ++ (write_chunk c ∷ [])) ≡ (a ++ chunks q) ++ c
        put_text a q c =
            ap (λ t. a ++ t)
              (chunks-append q (write_chunk c ∷ []) ∙ ap (λ t. chunks q ++ t) (one_chunk c))
            ∙ sym (append_assoc a (chunks q) c)

    -- The task takes the first chunk.
    pub round_write :
        (s : WritableStream ch) (t : Task ch buffer_sink) (c : Text) (q : List StreamCommand)
        → t.running ≡ true
        → ch.queue s.channel ≡ write_chunk c ∷ q
        → round ch buffer_sink s t ≡ (
          record s { channel = (ch.recv s.channel).0 },
          record { state = t.state ++ c; running = true },
        )
    unfolding round handle
    round_write s t c q runs e =
        rw (round, runs, (fifo.recv_first (write_chunk c) q s.channel e).0) refl

    round_idle :
        (s : WritableStream ch) (t : Task ch buffer_sink)
        → t.running ≡ true
        → ch.queue s.channel ≡ []
        → round ch buffer_sink s t ≡ (s, t)
    unfolding round handle
    round_idle s t runs e = rw (round, runs, fifo.recv_none s.channel e) refl

    work-Flows : (y : System) → Flows y → Flows (step y work)
    unfolding step
    work-Flows y v = by_queue (ch.queue y.stream.channel) refl
      where
        by_queue : (q : List StreamCommand) → ch.queue y.stream.channel ≡ q → Flows (step y work)
        by_queue [] e = rw (step, round_idle y.stream y.task v.running e) v
        by_queue (write_chunk c ∷ q) e =
            let (_, rest, still) = fifo.recv_first (write_chunk c) q y.stream.channel e in
            rw (step, round_write y.stream y.task c q v.running e)
              (record {
                receiving = still ∙ v.receiving;
                running = refl;
                writes = subst (All IsWrite) (sym rest) (subst (All IsWrite) e v.writes).1;
                conserved =
                    ap (λ r. (y.task.state ++ c) ++ chunks r) rest
                    ∙ append_assoc y.task.state c (chunks q)
                    ∙ ap (λ r. y.task.state ++ r) (sym (chunks-cons c q) ∙ sym (ap chunks e))
                    ∙ v.conserved;
              })
        by_queue (close_command ∷ q) e = absurd (subst (All IsWrite) e v.writes).0
        by_queue (abort_command reason ∷ q) e = absurd (subst (All IsWrite) e v.writes).0

    pub run-Flows : (ops : List Op) (y : System) → Flows y → Flows (run y ops)
    unfolding run
    run-Flows [] y v = v
    run-Flows (put chunk ∷ ops) y v = run-Flows ops (step y (put chunk)) (put-Flows y chunk v)
    run-Flows (work ∷ ops) y v = run-Flows ops (step y work) (work-Flows y v)

    -- Of the in-memory buffer, after any writes and rounds of the task: the buffer, with the chunks
    -- that are still in the channel, is what the writes accepted, in their order.
    pub run-start :
        (ops : List Op)
        → let y = run start ops in y.task.state ++ chunks (ch.queue y.stream.channel) ≡ y.accepted
    run-start ops = (run-Flows ops start start-Flows).conserved

  round_flags :
      (s : WritableStream ch) (t : Task ch buffer_sink)
      → ((round ch buffer_sink s t).0.closed ≡ s.closed)
        × ((round ch buffer_sink s t).0.aborted ≡ s.aborted)
  unfolding round handle
  round_flags s t = ground (arith)

  -- Neither writes nor rounds mark the stream.
  pub run_flags :
      (ops : List Op) (y : System)
      → ((run y ops).stream.closed ≡ y.stream.closed)
        × ((run y ops).stream.aborted ≡ y.stream.aborted)
  unfolding run step write send
  run_flags [] y = (refl, refl)
  run_flags (put chunk ∷ ops) y = run_flags ops (step y (put chunk))
  run_flags (work ∷ ops) y =
      let (c, a) = run_flags ops (step y work) in
      let (c', a') = round_flags y.stream y.task in (c ∙ c', a ∙ a')
