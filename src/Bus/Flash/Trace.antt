-- ===== src/Bus/Flash/Trace.antt =====
-- A bus that keeps a log of its traffic, newest first, in front of any adapter.
use split_flap.Common.{ℕ, ◌+◌, List, [], ◌∷◌, Bool, true, false, ◌&&◌, if◌then◌else◌}
use split_flap.Bus.Adapter.{Bus}
use split_flap.Bus.Twiboot.{exit_command, same_bytes}
use split_flap.Bus.Flash.{Watch}

-- `sent`: a write transaction to an address with its bytes, STOP or not, and its status. `got`: a
-- read, with the bytes of the write before it and those that came.
pub data Event : Type 0 where
  sent : ℕ → List ℕ → Bool → ℕ → Event
  got : ℕ → List ℕ → List ℕ → Event

-- The world, the queued transaction and the log.
pub record Traced (W : Type 0) : Type 0 where
  pub world : W
  pub target : ℕ
  pub queued : List ℕ
  pub log : List Event

abbrev pub traced : {W : Type 0} → Bus W → Bus (Traced W)
traced bus = record {
  queue = λ addr bytes t.
      let (n, w) = bus.queue addr bytes t.world in
      (n, record t { world = w; target = addr; queued = bytes });
  end_transmission = λ stop t.
      let (status, w) = bus.end_transmission stop t.world in
      (status, record t { world = w; log = sent t.target t.queued stop status ∷ t.log });
  end_counted = λ t.
      let (status, w) = bus.end_counted t.world in
      (status, record t { world = w; log = sent t.target t.queued true status ∷ t.log });
  receive = λ addr qty t.
      let (bytes, w) = bus.receive addr qty t.world in
      (bytes, record t { world = w; log = got addr t.queued bytes ∷ t.log });
  now_ms = λ t. let (now, w) = bus.now_ms t.world in (now, record t { world = w });
  sleep_ms = λ ms t. record t { world = bus.sleep_ms ms t.world };
  read_failed = λ t. record t { world = bus.read_failed t.world };
  note_read_error = λ t. record t { world = bus.note_read_error t.world };
  mark = λ act addr t. record t { world = bus.mark act addr t.world };
}

-- The caller's hooks in front of it; they do not touch the bus.
abbrev pub traced_watch : {W : Type 0} → Watch W → Watch (Traced W)
traced_watch watch = record {
  keep_going = λ t. let (b, w) = watch.keep_going t.world in (b, record t { world = w });
  page_rewritten = λ a n t. record t { world = watch.page_rewritten a n t.world };
}

-- The traced bus before its first call.
abbrev pub fresh : {W : Type 0} → W → Traced W
fresh w = record { world = w; target = 0; queued = []; log = [] }

-- The command that starts the sketch.
unfoldable pub is_exit : Event → Bool
unfolding same_bytes
is_exit (sent a bytes stop status) = stop && same_bytes bytes exit_command
is_exit (got a command bytes) = false

-- How often the bootloader was told to start the sketch.
unfoldable pub exits : List Event → ℕ
unfolding is_exit
exits [] = 0
exits (e ∷ l) = if is_exit e then exits l + 1 else exits l
