-- ===== src/Signal.antt =====
-- internal/libsignal/src/lib.rs: signals and sets of signals. The numbers are libc's for Linux on
-- x86-64, the only platform that the library supports.
pub mod Set
use libinger.Base.{
  ℕ, ◌≡◌, refl, sym, ap, ◌∙◌, ◌↔◌, Bool, true, Option, none, some, ◌==◌, ==_iff, if◌then◌else◌,
  some-injective,
}

pub data Signal : Type 0 where
  abort alarm bus breakpoint child continue coprocessor filesystem_limit floating_point : Signal
  hangup illegal interrupt kill pipe pollable profiling_timer quit segfault syscall : Signal
  terminal_input terminal_output terminal_stop terminate power_failure processor_limit : Signal
  urgent_socket user1 user2 virtual_alarm window_resize : Signal

-- `signal as c_int`
unfoldable pub number : Signal → ℕ
number abort = 6
number alarm = 14
number bus = 7
number breakpoint = 5
number child = 17
number continue = 18
number coprocessor = 16
number filesystem_limit = 25
number floating_point = 8
number hangup = 1
number illegal = 4
number interrupt = 2
number kill = 9
number pipe = 13
number pollable = 29
number profiling_timer = 27
number quit = 3
number segfault = 11
number syscall = 31
number terminal_input = 21
number terminal_output = 22
number terminal_stop = 20
number terminate = 15
number power_failure = 30
number processor_limit = 24
number urgent_socket = 23
number user1 = 10
number user2 = 12
number virtual_alarm = 26
number window_resize = 28

-- The derived order of the discriminants, read backwards.
from_number : ℕ → Option Signal
from_number n =
    if n == 6
    then some abort
    else if n == 14
    then some alarm
    else if n == 7
    then some bus
    else if n == 5
    then some breakpoint
    else if n == 17
    then some child
    else if n == 18
    then some continue
    else if n == 16
    then some coprocessor
    else if n == 25
    then some filesystem_limit
    else if n == 8
    then some floating_point
    else if n == 1
    then some hangup
    else if n == 4
    then some illegal
    else if n == 2
    then some interrupt
    else if n == 9
    then some kill
    else if n == 13
    then some pipe
    else if n == 29
    then some pollable
    else if n == 27
    then some profiling_timer
    else if n == 3
    then some quit
    else if n == 11
    then some segfault
    else if n == 31
    then some syscall
    else if n == 21
    then some terminal_input
    else if n == 22
    then some terminal_output
    else if n == 20
    then some terminal_stop
    else if n == 15
    then some terminate
    else if n == 30
    then some power_failure
    else if n == 24
    then some processor_limit
    else if n == 23
    then some urgent_socket
    else if n == 10
    then some user1
    else if n == 12
    then some user2
    else if n == 26
    then some virtual_alarm
    else if n == 28
    then some window_resize
    else none

from_number-number : (s : Signal) → from_number (number s) ≡ some s
unfolding number from_number
from_number-number abort = refl
from_number-number alarm = refl
from_number-number bus = refl
from_number-number breakpoint = refl
from_number-number child = refl
from_number-number continue = refl
from_number-number coprocessor = refl
from_number-number filesystem_limit = refl
from_number-number floating_point = refl
from_number-number hangup = refl
from_number-number illegal = refl
from_number-number interrupt = refl
from_number-number kill = refl
from_number-number pipe = refl
from_number-number pollable = refl
from_number-number profiling_timer = refl
from_number-number quit = refl
from_number-number segfault = refl
from_number-number syscall = refl
from_number-number terminal_input = refl
from_number-number terminal_output = refl
from_number-number terminal_stop = refl
from_number-number terminate = refl
from_number-number power_failure = refl
from_number-number processor_limit = refl
from_number-number urgent_socket = refl
from_number-number user1 = refl
from_number-number user2 = refl
from_number-number virtual_alarm = refl
from_number-number window_resize = refl

-- `eq` of `PartialEq`
abbrev pub eq : Signal → Signal → Bool
eq a b = number a == number b

number-injective : (a b : Signal) → number a ≡ number b → a ≡ b
number-injective a b e =
    some-injective a b (sym (from_number-number a) ∙ ap from_number e ∙ from_number-number b)

-- The comparison of signals, which looks at their numbers, tells all of them apart.
pub eq_iff : (a b : Signal) → (eq a b ≡ true) ↔ (a ≡ b)
eq_iff a b = (
  λ h. number-injective a b ((==_iff (number a) (number b)).0 h),
  λ h. (==_iff (number a) (number b)).1 (ap number h),
)
