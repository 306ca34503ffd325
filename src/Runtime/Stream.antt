-- ===== src/Runtime/Stream.antt =====
-- `WritableStream` of src/runtime/stream.rs, its writer and the task that drives the sink.
-- The channel is that of the async runtime, the sink that of the caller: interfaces.
pub mod Buffer
pub mod Flush
pub mod Lost
use nano_rs.Common.{
  ℕ, ◌≡◌, ◌⊎◌, suc, ◌-◌, Bool, true, false, not, ◌&&◌, ◌||◌, Option, none, some, List, [], ◌∷◌,
  ◌++◌, Text, bytes, length, ltb, if◌then◌else◌,
}

pub data StreamCommand : Type 0 where
  write_chunk : (chunk : Text) → StreamCommand
  close_command : StreamCommand
  abort_command : (reason : Option Text) → StreamCommand

pub data WriteError : Type 0 where
  closed_error : WriteError
  aborted_error : (reason : Option Text) → WriteError
  internal_error : (message : Text) → WriteError

-- How a send ends: the command is in the channel, the receiver is gone, or there is no room, so
-- that `send` waits and `try_send` gives up.
pub data Sent : Type 0 where
  delivered disconnected full : Sent

-- A channel with one receiver, of which the commands in it are seen in order.
pub record Channel : Type 1 where
  pub State : Type 0
  pub new : ℕ → State
  pub queue : State → List StreamCommand
  pub receiving : State → Bool
  pub send : StreamCommand → State → State × Sent
  pub recv : State → State × Option StreamCommand
  pub hang_up : State → State

-- What is known of a channel.
pub record IsFifo (ch : Channel) : Type 0 where
  pub new_queue : (n : ℕ) → ch.queue (ch.new n) ≡ []
  pub new_receiving : (n : ℕ) → ch.receiving (ch.new n) ≡ true
  pub send_gone :
      (x : StreamCommand) (c : ch.State) → ch.receiving c ≡ false → ch.send x c ≡ (c, disconnected)
  pub send_open :
      (x : StreamCommand) (c : ch.State)
      → ch.receiving c ≡ true
      → (ch.send x c ≡ (c, full))
        ⊎ ((ch.send x c).1 ≡ delivered)
          × (ch.queue (ch.send x c).0 ≡ ch.queue c ++ (x ∷ []))
          × (ch.receiving (ch.send x c).0 ≡ true)
  pub recv_first :
      (x : StreamCommand) (xs : List StreamCommand) (c : ch.State)
      → ch.queue c ≡ x ∷ xs
      → ((ch.recv c).1 ≡ some x)
        × (ch.queue (ch.recv c).0 ≡ xs)
        × (ch.receiving (ch.recv c).0 ≡ ch.receiving c)
  pub recv_none : (c : ch.State) → ch.queue c ≡ [] → ch.recv c ≡ (c, none)
  pub hang_up_receiving : (c : ch.State) → ch.receiving (ch.hang_up c) ≡ false

-- `UnderlyingSink`: each call gives the new state, and whether it is `Ok`.
pub record UnderlyingSink : Type 1 where
  pub State : Type 0
  pub start : State → State × Bool
  pub write : Text → State → State × Bool
  pub close : State → State × Bool
  pub abort : Option Text → State → State × Bool

-- The default `start`, `close` and `abort`.
abbrev default_call {ℓ} : {A : Type ℓ} → A → A × Bool
default_call a = (a, true)

-- `BufferSink`: the buffer grows by each chunk.
abbrev pub buffer_sink : UnderlyingSink
buffer_sink = record {
  State = Text;
  start = default_call;
  write = λ chunk buffer. (buffer ++ chunk, true);
  close = default_call;
  abort = λ reason. default_call;
}

-- What a call has returned; `pending` if it still waits.
pub data Reply : Type 0 where
  ok : Reply
  err : WriteError → Reply
  pending : Reply

-- `WritableStreamDefaultWriter`: whether it is closed. Its sender is always there.
pub record Writer : Type 0 where
  pub is_closed : Bool

abbrev or_four : Option ℕ → ℕ
or_four none = 4
or_four (some n) = n

abbrev pub dropped : Text
dropped = bytes "Writer dropped without close"

abbrev pub ready : Writer → Reply
ready w = if w.is_closed then err closed_error else ok

module _ (ch : Channel) where
  pub record WritableStream : Type 0 where
    pub channel : ch.State
    pub locked : Bool
    pub high_water_mark : ℕ
    pub closed : Bool
    pub aborted : Bool
    pub abort_reason : Option Text

  -- Of the task that `new` spawns: the sink, and whether the loop still runs.
  pub record Task (sink : UnderlyingSink) : Type 0 where
    pub state : sink.State
    pub running : Bool

  unfoldable pub new : Option ℕ → WritableStream
  new high_water_mark =
      let n = or_four high_water_mark in
      record {
        channel = ch.new n;
        locked = false;
        high_water_mark = n;
        closed = false;
        aborted = false;
        abort_reason = none;
      }

  unfoldable pub get_writer : WritableStream → WritableStream × Option Writer
  get_writer s =
      if s.locked
      then (s, none)
      else if s.closed || s.aborted
      then (record s { locked = false }, none)
      else (record s { locked = true }, some (record { is_closed = false }))

  abbrev pub mark_closed : WritableStream → WritableStream
  mark_closed s = record s { closed = true; locked = false }

  abbrev pub mark_aborted : Option Text → WritableStream → WritableStream
  mark_aborted reason s = record s { aborted = true; abort_reason = reason; locked = false }

  abbrev pub release_lock : WritableStream → WritableStream
  release_lock s = record s { locked = false }

  abbrev pub reply_of : Sent → Reply
  reply_of delivered = ok
  reply_of disconnected = err closed_error
  reply_of full = pending

  -- `sender.send(command).await.map_err(|_| WriteError::Closed)`.
  unfoldable pub send : StreamCommand → WritableStream → WritableStream × Reply
  send x s = let (c, r) = ch.send x s.channel in (record s { channel = c }, reply_of r)

  unfoldable pub write : Text → Writer → WritableStream → WritableStream × Reply
  unfolding send
  write chunk w s = if w.is_closed then (s, err closed_error) else send (write_chunk chunk) s

  -- `Drop` of a writer.
  unfoldable pub drop : Writer → WritableStream → WritableStream
  unfolding send
  drop w s =
      let (s', _) = send (abort_command (some dropped)) s in
      release_lock (if w.is_closed then s else s')

  -- The end of `close` and of `abort`, which drop the writer when they return.
  unfoldable pub finish :
      (WritableStream → WritableStream) → Writer → WritableStream × Reply → WritableStream × Reply
  unfolding drop
  finish mark w (s, ok) = (drop (record { is_closed = true }) (mark s), ok)
  finish mark w (s, err e) = (drop w s, err e)
  finish mark w (s, pending) = (s, pending)

  unfoldable pub close : Writer → WritableStream → WritableStream × Reply
  unfolding finish
  close w s =
      finish mark_closed w (if w.is_closed then (s, err closed_error) else send close_command s)

  unfoldable pub abort : Option Text → Writer → WritableStream → WritableStream × Reply
  unfolding finish
  abort reason w s =
      finish (mark_aborted reason) w
        (if w.is_closed then (s, err closed_error) else send (abort_command reason) s)

  abbrev pub desired_size : Writer → WritableStream → ℕ
  desired_size w s = if w.is_closed then 0 else s.high_water_mark - 1

  module _ (sink : UnderlyingSink) where
    -- The end of the task: the receiver is dropped.
    abbrev pub stop : WritableStream → sink.State → WritableStream × Task sink
    stop s state =
        (record s { channel = ch.hang_up s.channel }, record { state = state; running = false })

    abbrev pub keep_on : WritableStream → sink.State → WritableStream × Task sink
    keep_on s state = (s, record { state = state; running = true })

    -- What the loop does with a command; `none` while it waits for one.
    unfoldable pub handle :
        Option StreamCommand → WritableStream → sink.State → WritableStream × Task sink
    handle none s state = keep_on s state
    handle (some (write_chunk chunk)) s state =
        let (state', done) = sink.write chunk state in
        if done then keep_on s state' else stop s state'
    handle (some close_command) s state = let (state', _) = sink.close state in stop s state'
    handle (some (abort_command reason)) s state =
        let (state', _) = sink.abort reason state in stop s state'

    -- A round of the loop.
    unfoldable pub round : WritableStream → Task sink → WritableStream × Task sink
    unfolding handle
    round s t =
        let (c, x) = ch.recv s.channel in
        if t.running then handle x (record s { channel = c }) t.state else (s, t)

    -- The start of the task.
    unfoldable pub spawn : WritableStream → sink.State → WritableStream × Task sink
    spawn s state =
        let (state', started) = sink.start state in
        if started then keep_on s state' else stop s state'

  -- `in_memory_buffer`.
  unfoldable pub in_memory_buffer : WritableStream × Task buffer_sink
  unfolding new spawn
  in_memory_buffer = spawn buffer_sink (new (some 4)) []
