-- ===== src/Signal/Set.antt =====
-- internal/libsignal/src/lib.rs: `Set for Sigset`, with a set of signals as its membership test,
-- and `pthread_sigmask` on the mask of a thread.
use libinger.Base.{Bool, true, false, not, ◌&&◌, ◌||◌, if◌then◌else◌}
use libinger.Signal.{Signal, eq}

abbrev pub Sigset : Type 0
Sigset = Signal → Bool

abbrev pub empty : Sigset
empty s = false

abbrev pub full : Sigset
full s = true

abbrev pub add : Sigset → Signal → Sigset
add set signal s = if eq s signal then true else set s

abbrev pub del : Sigset → Signal → Sigset
del set signal s = if eq s signal then false else set s

abbrev pub has : Sigset → Signal → Bool
has set signal = set signal

pub data Operation : Type 0 where
  block unblock set_mask : Operation

-- The mask that `pthread_sigmask(how, new, _)` leaves, from the mask `old`.
abbrev pub changed : Operation → Sigset → Sigset → Sigset
changed block new old s = old s || new s
changed unblock new old s = old s && not (new s)
changed set_mask new old s = new s
