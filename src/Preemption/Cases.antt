-- ===== src/Preemption/Cases.antt =====
-- src/preemption.rs: what `enable_preemption` and `disable_preemption` do.
use libinger.Base.{◌≡◌, refl, true, false, none, some, is_some, ok, returns}
use libinger.Gotcha.{Gotcha}
use libinger.Signal.{Signal}
use libinger.Signal.Set.{unblock}
use libinger.Machine.{Thread}
use libinger.Preemption.{
  get_errno, set_tls, thread_signal, mask, raise, enable_preemption, enter, reenable,
}

module _ {Group : Type 0} (G : Gotcha Group) {S : Type 0} where
  -- The thread once `errno_group` has been told the group, and has entered it.
  abbrev pub entered : Group → Thread Group S → Thread Group S
  entered g t = record t { group = g; tls = record t.tls { errno_location = some g } }

  abbrev pub clear_deferred : Thread Group S → Thread Group S
  clear_deferred t = set_tls G (record t.tls { deferred = false }) t

  thread_signal-entered :
      (g : Group) (t : Thread Group S) → thread_signal G (entered g t) ≡ thread_signal G t
  unfolding thread_signal
  thread_signal-entered g t = refl

  module _ (own : Signal) (t : Thread Group S) where
    -- With a group, on a thread with no preemption put off: the group is entered, and the thread's
    -- signal is unmasked.
    pub enable_preemption-some :
        (g : Group)
        → thread_signal G t ≡ ok own
        → t.tls.deferred ≡ false
        → enable_preemption G (some g) t
          ≡ returns (record {
            unblocked = ok (some own);
            errno = get_errno G t;
            thread = mask G unblock own (entered g t);
          })
    unfolding enable_preemption enter
    enable_preemption-some g e d = rw (thread_signal-entered g t, e, enter, d, reenable) refl

    -- With no group and no preemption put off: nothing happens.
    pub enable_preemption_quiet :
        is_some t.tls.errno_location ≡ true
        → t.tls.deferred ≡ false
        → enable_preemption G none t
          ≡ returns (record { unblocked = ok none; errno = get_errno G t; thread = t })
    unfolding enable_preemption enter
    enable_preemption_quiet l d = rw (l) (rw d)

    -- With no group and a preemption put off: the signal is raised and then unmasked.
    pub enable_preemption_due :
        is_some t.tls.errno_location ≡ true
        → t.tls.deferred ≡ true
        → thread_signal G t ≡ ok own
        → enable_preemption G none t
          ≡ returns (record {
            unblocked = ok (some own);
            errno = get_errno G t;
            thread = mask G unblock own (raise G own (clear_deferred t));
          })
    unfolding enable_preemption enter
    enable_preemption_due l d e = rw l (rw d (rw e))
