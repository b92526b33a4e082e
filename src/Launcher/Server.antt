-- ===== src/Launcher/Server.antt =====
-- luncher/server/src/Server.cpp: the notification that the threads of the clients set, and the loop of
-- main that waits for it.
use cezfuzzer.Base.{
  ℕ, ℤ, Bool, true, false, List, [], ◌∷◌, ◌++◌, Option, none, some, if◌then◌else◌, length,
}
use cezfuzzer.Launcher.Messages.{restart_text, crash_text, literal, strncmp_eq}

-- _notificationMessage: the empty text, or RESTART.
pub data Message : Type 0 where
  cleared restart : Message

pub record Server : Type 0 where
  pub notification : Bool
  pub message : Message
  pub client_fd_list : List ℤ
  pub proxy_pid : Option ℕ

-- The body of the loop of handle_client_connection on a received buffer, under the mutex.
unfoldable pub handle_message : Server → List ℕ → Server
handle_message s buffer =
    if strncmp_eq (length crash_text) buffer (literal crash_text)
    then record s { message = restart; notification = true }
    else s

-- listen_thread_func, after accept().
unfoldable pub add_client : Server → ℤ → Server
add_client s fd = record s { client_fd_list = s.client_fd_list ++ fd ∷ [] }

-- One round of the loop of main. `waiting` stays in pthread_cond_wait; `locked` has handled nothing
-- and keeps the mutex, so that the next round waits for itself; `thrown` is the exception of value()
-- on an empty optional; `restarted` has sent a text to each client, and `exited` only to some: the
-- next send_message() has ended the process.
pub data Turn : Type 0 where
  waiting locked thrown : Turn
  restarted : Server → List (ℤ × List ℕ) → Turn
  exited : List (ℤ × List ℕ) → Turn

-- The loop over the clients: the texts that are sent, and whether each send_message() returns.
abbrev pub sent_texts : (ℤ → Bool) → List ℤ → List (ℤ × List ℕ)
sent_texts delivers [] = []
sent_texts delivers (fd ∷ fds) =
    let rest = sent_texts delivers fds in
    if delivers fd then (fd, literal restart_text) ∷ rest else []

abbrev pub all_sent : (ℤ → Bool) → List ℤ → Bool
all_sent delivers [] = true
all_sent delivers (fd ∷ fds) =
    let rest = all_sent delivers fds in if delivers fd then rest else false

-- `launched` is the result of launchEntity for the proxy; `delivers` says for which clients
-- send_message() returns.
abbrev restart_proxy : (ℤ → Bool) → Option ℕ → Server → Option ℕ → Turn
restart_proxy delivers launched s none = thrown
restart_proxy delivers launched s (some pid) =
    let texts = sent_texts delivers s.client_fd_list in
    if all_sent delivers s.client_fd_list
    then restarted (record s { proxy_pid = launched; message = cleared; notification = false })
        texts
    else exited texts

abbrev handle_notification : (ℤ → Bool) → Option ℕ → Server → Message → Turn
handle_notification delivers launched s cleared = locked
handle_notification delivers launched s restart = restart_proxy delivers launched s s.proxy_pid

unfoldable pub main_turn : (ℤ → Bool) → Option ℕ → Server → Turn
main_turn delivers launched s =
    if s.notification then handle_notification delivers launched s s.message else waiting
