-- ===== src/Launcher/Accepting.antt =====
-- luncher/server/src/Server.cpp: listen_thread_func, and the first statement of the threads that it
-- starts. Each is given the address of one variable, client_fd, so its value is that of the moment
-- at which the thread reads it.
use cezfuzzer.Base.{
  ℕ, zero, suc, ℤ, minus_one, Bool, false, List, [], ◌∷◌, ◌++◌, Option, none, some, if◌then◌else◌,
}
use cezfuzzer.Config.Yaml.{◌>>=◌}
use cezfuzzer.Launcher.Clients.{ClientInfo, add_new_client}

-- A result of accept(), with the outcomes of the realloc() and the pthread_create() that follow.
pub record NewClient : Type 0 where
  pub fd : ℤ
  pub ip : List ℕ
  pub port : ℕ
  pub granted : Bool
  pub junk : List ℕ
  pub thread_starts : Bool

-- `listening` is false once the function has returned. `starting` are the threads that have not read
-- their argument yet, and `serving` the descriptors that the others have read.
pub record Acceptor : Type 0 where
  pub listening : Bool
  pub client_fd : ℤ
  pub client_list : List ClientInfo
  pub client_fd_list : List ℤ
  pub starting : ℕ
  pub serving : List ℤ

abbrev pub add_client_of : NewClient → Acceptor → Acceptor
add_client_of c s = record s {
  client_fd = c.fd;
  client_list = (add_new_client c.granted c.junk c.fd c.ip c.port s.client_list).0;
  client_fd_list = s.client_fd_list ++ c.fd ∷ [];
}

-- A round of the loop.
unfoldable pub accept_client : NewClient → Acceptor → Acceptor
accept_client c s =
    if s.listening
    then (let added : Acceptor = add_client_of c s in
        if c.thread_starts
        then record added { starting = suc added.starting }
        else record added { listening = false })
    else s

-- accept() fails.
unfoldable pub accept_fails : Acceptor → Acceptor
accept_fails s = if s.listening then record s { client_fd = minus_one; listening = false } else s

-- `int client_fd = *(int*) arg` of handle_client_connection. Once listen_thread_func has returned,
-- its variable is gone, and the read is undefined: none.
abbrev begin_of : ℕ → Acceptor → Option Acceptor
begin_of zero s = some s
begin_of (suc n) s =
    if s.listening
    then some (record s { starting = n; serving = s.serving ++ s.client_fd ∷ [] })
    else none

unfoldable pub begin_thread : Acceptor → Option Acceptor
begin_thread s = begin_of s.starting s

-- What happens next.
pub data Event : Type 0 where
  accepts : NewClient → Event
  fails : Event
  begins : Event

unfoldable pub happen : Event → Acceptor → Option Acceptor
happen (accepts c) s = some (accept_client c s)
happen fails s = some (accept_fails s)
happen begins s = begin_thread s

unfoldable pub run : List Event → Acceptor → Option Acceptor
run [] s = some s
run (ev ∷ evs) s = do s' ← happen ev s; run evs s'
