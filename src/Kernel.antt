-- ===== src/Kernel.antt =====
-- internal/libsignal/src/lib.rs, internal/libsignal/src/pthread.rs and src/timer.rs: the calls of the
-- operating system on signals and timers. The system is a parameter: `K` is its state, as far as a
-- process sees it, and each function of libc is given with the state that it leaves. The laws say
-- what POSIX has of the calls that the library makes.
pub mod Timer
use libinger.Base.{
  ℕ, ◌≡◌, ◌≢◌, Bool, true, false, Option, none, some, List, [], ◌∷◌, Result, ok, err, ◌==◌,
  if◌then◌else◌,
}
use libinger.Signal.{Signal, number}
use libinger.Signal.Set.{Sigset, Operation, changed}

-- An address of a function, and what goes with it to the kernel.
pub record Sigaction : Type 0 where
  pub sa_sigaction : ℕ
  pub sa_mask : Sigset
  pub sa_flags : ℕ

-- A field that `new` leaves uninitialized is `none`.
pub record Sigevent : Type 0 where
  pub sigev_notify : ℕ
  pub sigev_signo : Option ℕ
  pub sigev_notify_thread_id : Option ℕ

pub record Timespec : Type 0 where
  pub tv_sec : ℕ
  pub tv_nsec : ℕ

pub record Itimerspec : Type 0 where
  pub it_interval : Timespec
  pub it_value : Timespec

-- Each call has its code, 0 for success, and the state after it. `handler` is the disposition of a
-- signal, `timers` the timers that the process has, `sigmask` the mask of its thread, `last_os_error`
-- the error number of the last call.
pub record Kernel (K : Type 0) : Type 0 where
  pub sigaction : ℕ → Option Sigaction → K → ℕ × K
  pub pthread_sigmask : Operation → Sigset → K → ℕ × K
  pub pthread_kill : ℕ → K → ℕ × K
  pub timer_create : ℕ → Sigevent → K → (ℕ × ℕ) × K
  pub timer_settime : ℕ → ℕ → Itimerspec → K → ℕ × K
  pub timer_delete : ℕ → K → ℕ × K
  pub last_os_error : K → ℕ
  pub handler : K → ℕ → Option Sigaction
  pub timers : K → List ℕ
  pub sigmask : K → Sigset
  pub query_lem : (s : ℕ) (k : K) → handler (sigaction s none k).1 ≡ handler k
  pub register_lem :
      (s : ℕ) (a : Sigaction) (k : K)
      → (sigaction s (some a) k).0 ≡ 0
      → handler (sigaction s (some a) k).1 s ≡ some a
  pub action_keeps_lem :
      (s : ℕ) (a : Option Sigaction) (k : K) → timers (sigaction s a k).1 ≡ timers k
  pub delete_lem : (t : ℕ) (k : K) → handler (timer_delete t k).1 ≡ handler k
  pub create_lem :
      (c : ℕ) (e : Sigevent) (k : K)
      → (timer_create c e k).0.0 ≡ 0
      → timers (timer_create c e k).1 ≡ (timer_create c e k).0.1 ∷ timers k
  pub create_fails_lem :
      (c : ℕ) (e : Sigevent) (k : K)
      → (timer_create c e k).0.0 ≢ 0
      → timers (timer_create c e k).1 ≡ timers k
  pub create_keeps_lem : (c : ℕ) (e : Sigevent) (k : K) → handler (timer_create c e k).1 ≡ handler k
  pub settime_lem :
      (t f : ℕ) (s : Itimerspec) (k : K)
      → (timers (timer_settime t f s k).1 ≡ timers k)
        × (handler (timer_settime t f s k).1 ≡ handler k)
  pub sigmask_lem :
      (how : Operation) (set : Sigset) (k : K)
      → (pthread_sigmask how set k).0 ≡ 0
      → sigmask (pthread_sigmask how set k).1 ≡ changed how set (sigmask k)
  pub mask_keeps_lem :
      (how : Operation) (set : Sigset) (k : K)
      → (handler (pthread_sigmask how set k).1 ≡ handler k)
        × (timers (pthread_sigmask how set k).1 ≡ timers k)

-- `Err(Error::last_os_error())`, or `Err(Error::from_raw_os_error(code))` for the threads' functions.
abbrev pub checked : ℕ → ℕ → Result (Unit {0}) ℕ
checked code error = if code == 0 then ok tt else err error

-- `Action::new`
unfoldable pub new : ℕ → Sigset → ℕ → Sigaction
new sigaction mask flags = record { sa_sigaction = sigaction; sa_mask = mask; sa_flags = flags }

-- `Actionable` is implemented by an action, which is then registered, and by `()`, for none.
pub data Actionable : Type 0 where
  action : Sigaction → Actionable
  nothing : Actionable

abbrev pub maybe : Actionable → Option Sigaction
maybe (action a) = some a
maybe nothing = none

module _ {K : Type 0} (os : Kernel K) where
  unfoldable pub sigaction : Signal → Actionable → K → Result (Unit {0}) ℕ × K
  sigaction signal new k =
      let (code, k') = os.sigaction (number signal) (maybe new) k in
      (checked code (os.last_os_error k'), k')

  unfoldable pub pthread_sigmask : Operation → Sigset → K → Result (Unit {0}) ℕ × K
  pthread_sigmask how new k =
      let (code, k') = os.pthread_sigmask how new k in (checked code code, k')

  unfoldable pub sigprocmask : Operation → Sigset → K → Result (Unit {0}) ℕ × K
  unfolding pthread_sigmask
  sigprocmask how new k = pthread_sigmask how new k

  -- The signal goes to the thread that calls.
  unfoldable pub pthread_kill : Signal → K → Result (Unit {0}) ℕ × K
  pthread_kill signal k =
      let (code, k') = os.pthread_kill (number signal) k in (checked code code, k')
