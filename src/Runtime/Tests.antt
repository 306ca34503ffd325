-- ===== src/Runtime/Tests.antt =====
-- The theorems on streams with a channel of two places.
use nano_rs.Common.{
  ℕ, ◌≡◌, refl, ◌⊎◌, Bool, true, false, not, Option, none, some, List, [], ◌∷◌, ◌++◌, Text, bytes,
  length, ltb, if◌then◌else◌, arith,
}
use nano_rs.Runtime.Stream.{
  StreamCommand, abort_command, Sent, delivered, disconnected, full, Channel, IsFifo, ok,
  get_writer, send, write, close, drop, finish, handle, round, new, spawn, in_memory_buffer,
  dropped, WritableStream,
}
use nano_rs.Runtime.Stream.Buffer.{Op, put, work, open_writer, step, run, start}
use nano_rs.Runtime.Stream.Flush.{rounds, close_flushes}
use nano_rs.Runtime.Stream.Lost.{write_after_drop}

record Places : Type 0 where
  capacity : ℕ
  commands : List StreamCommand
  is_open : Bool

abbrev place : StreamCommand → Places → Places × Sent
place x c =
    if not c.is_open
    then (c, disconnected)
    else if ltb (length c.commands) c.capacity
    then (record c { commands = c.commands ++ (x ∷ []) }, delivered)
    else (c, full)

abbrev first : ℕ → Bool → List StreamCommand → Places × Option StreamCommand
first n o [] = (record { capacity = n; commands = []; is_open = o }, none)
first n o (x ∷ xs) = (record { capacity = n; commands = xs; is_open = o }, some x)

abbrev bounded : Channel
bounded = record {
  State = Places;
  new = λ n. record { capacity = n; commands = []; is_open = true };
  queue = λ c. c.commands;
  receiving = λ c. c.is_open;
  send = place;
  recv = λ c. first c.capacity c.is_open c.commands;
  hang_up = λ c. record c { is_open = false };
}

place_open :
    (x : StreamCommand) (c : Places)
    → c.is_open ≡ true
    → (place x c ≡ (c, full))
      ⊎ ((place x c).1 ≡ delivered)
        × ((place x c).0.commands ≡ c.commands ++ (x ∷ []))
        × ((place x c).0.is_open ≡ true)
place_open x c h = ground arith

first-none : (c : Places) → c.commands ≡ [] → first c.capacity c.is_open c.commands ≡ (c, none)
first-none c e = rw e refl

bounded-IsFifo : IsFifo bounded
bounded-IsFifo = record {
  new_queue = λ n. refl;
  new_receiving = λ n. refl;
  send_gone = λ x c h. ground arith;
  send_open = place_open;
  recv_first = λ x xs c e. rw e (refl, refl, refl);
  recv_none = first-none;
  hang_up_receiving = λ c. refl;
}

abbrev hello : List Op
hello = put (bytes "he") ∷ work ∷ put (bytes "llo") ∷ []

hello_accepted : (run bounded (start bounded) hello).accepted ≡ bytes "hello"
unfolding run start step write send in_memory_buffer new spawn round handle
hello_accepted = refl

abbrev closing : WritableStream bounded
closing = (close bounded open_writer (run bounded (start bounded) hello).stream).0

hello_closed : close bounded open_writer (run bounded (start bounded) hello).stream ≡ (closing, ok)
unfolding run start step write send in_memory_buffer new spawn round handle close finish drop
hello_closed = refl

close_flushes_example :
    ((rounds bounded
        (length closing.channel.commands)
        closing
        (run bounded (start bounded) hello).task).1.state
      ≡ (run bounded (start bounded) hello).accepted)
    × ((rounds bounded
          (length closing.channel.commands)
          closing
          (run bounded (start bounded) hello).task).1.running
        ≡ false)
    × (closing.closed ≡ true)
close_flushes_example = close_flushes bounded bounded-IsFifo hello closing hello_closed

hello-dropped :
    (place (abort_command (some dropped)) (run bounded (start bounded) hello).stream.channel).1
    ≡ delivered
unfolding run start step write send in_memory_buffer new spawn round handle
hello-dropped = refl

abbrev after_drop : WritableStream bounded
after_drop = drop bounded open_writer (run bounded (start bounded) hello).stream

-- The write behind the drop is accepted.
accepted_after_drop : (write bounded (bytes "!") open_writer after_drop).1 ≡ ok
unfolding run start step write send in_memory_buffer new spawn round handle drop
accepted_after_drop = refl

write_after_drop_example :
    ((get_writer bounded after_drop).1 ≡ some open_writer)
    × ((rest : Text) × ((run bounded
              (record (run bounded (start bounded) hello) { stream = after_drop })
              (put (bytes "!") ∷ work ∷ work ∷ work ∷ [])).task.state
            ++ rest
          ≡ (run bounded (start bounded) hello).accepted))
write_after_drop_example =
    write_after_drop bounded bounded-IsFifo hello (put (bytes "!") ∷ work ∷ work ∷ work ∷ [])
      hello-dropped
