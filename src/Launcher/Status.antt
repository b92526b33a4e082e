-- ===== src/Launcher/Status.antt =====
-- What the launchers print about the status of a child: stop_process of luncher/server/src/Server.cpp
-- and analyze_child_exit_status of luncher/client/src/Client.cpp.
use cezfuzzer.Base.{ℕ, Bool, if◌then◌else◌, ◌==◌}

-- The macros of sys/wait.h and the numbers of signal.h; `killed n` is the status of a process that
-- signal n has ended.
pub record WaitStatus : Type 0 where
  pub wifexited : ℕ → Bool
  pub wifsignaled : ℕ → Bool
  pub wifstopped : ℕ → Bool
  pub wifcontinued : ℕ → Bool
  pub wexitstatus : ℕ → ℕ
  pub wtermsig : ℕ → ℕ
  pub wstopsig : ℕ → ℕ
  pub sigkill : ℕ
  pub sigsegv : ℕ
  pub sigfpe : ℕ
  pub sigabrt : ℕ
  pub killed : ℕ → ℕ

-- The line of stop_process after waitpid().
pub data Report : Type 0 where
  exited terminated stopped unknown : ℕ → Report
  resumed : Report

-- What analyze_child_exit_status says of a signal.
pub data Cause : Type 0 where
  segmentation_fault floating_point_exception abort_signal other_signal : Cause

pub data Diagnosis : Type 0 where
  child_exited : ℕ → Diagnosis
  child_terminated : ℕ → Cause → Diagnosis
  unknown_way : Diagnosis

module _ (m : WaitStatus) where
  unfoldable pub report_of : ℕ → Report
  report_of status =
      if m.wifexited status
      then exited (m.wexitstatus status)
      else if m.wifsignaled status
      then terminated (m.wtermsig status)
      else if m.wifstopped status
      then stopped (m.wstopsig status)
      else if m.wifcontinued status
      then resumed
      else unknown status

  abbrev pub cause_of : ℕ → Cause
  cause_of sig =
      if sig == m.sigsegv
      then segmentation_fault
      else if sig == m.sigfpe
      then floating_point_exception
      else if sig == m.sigabrt
      then abort_signal
      else other_signal

  unfoldable pub analyze_child_exit_status : ℕ → Diagnosis
  analyze_child_exit_status status =
      if m.wifexited status
      then child_exited (m.wexitstatus status)
      else if m.wifsignaled status
      then child_terminated (m.wtermsig status) (cause_of (m.wtermsig status))
      else unknown_way
