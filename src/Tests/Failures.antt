-- ===== src/Tests/Failures.antt =====
-- A resumption that fails, and the one after it.
use libinger.Base.{ℕ, ◌≡◌, refl, some, none, returns, panics}
use libinger.Linger.Resume.{Faults, Resumed, failed, continuation, resume}
use libinger.Linger.Resume.Valid.{no_faults, answers}
use libinger.Linger.Resume.Failure.{resume_again}
use libinger.Tests.Sample.{gotcha, body, alarm_timer, main_thread, new_continuation, ticks}

-- There is no memory for a block's installation.
abbrev no_install : Faults
no_install = record (no_faults (answers alarm_timer)) { install = some 12 }

abbrev failed_call : Resumed ℕ ℕ ℕ
failed_call = record {
  reply = failed 12;
  linger = continuation (record new_continuation { tls = none });
  dropped = none;
  thread = main_thread;
  rest = ticks 5;
}

fails :
    resume gotcha body no_install (continuation new_continuation) 10 main_thread (ticks 5)
    ≡ returns failed_call
unfolding resume
fails = refl

resume_again_example :
    resume gotcha body
      (no_faults (answers alarm_timer))
      failed_call.linger
      10
      main_thread
      (ticks 20)
    ≡ panics
resume_again_example =
    resume_again gotcha body no_install (no_faults (answers alarm_timer))
      (continuation new_continuation) 10 10 12 main_thread main_thread (ticks 5) (ticks 20)
      failed_call fails refl
