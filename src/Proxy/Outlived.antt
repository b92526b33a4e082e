-- ===== src/Proxy/Outlived.antt =====
-- proxy/src/main.cpp: the threads of the proxy outlive its handlers.
use cezfuzzer.Base.{ℕ, ◌<◌, ◌≡◌, ℤ, Bool, true, some, String, List, ◌∷◌}
use cezfuzzer.Config.Yaml.{Yaml}
use cezfuzzer.Config.Entity.{EntityConfig}
use cezfuzzer.Fuzzer.Memory.{World, fault, is_live}
use cezfuzzer.Fuzzer.Core.{Env}
use cezfuzzer.Udp.Connection.{UdpConnection}
use cezfuzzer.Udp.Threads.{Round, datagram, recv_thread_entry, send_thread_entry}
use cezfuzzer.Tcp.Channel.{TcpSystem}
use cezfuzzer.Proxy.Base.{UdpSide}
use cezfuzzer.Proxy.Started.{IsStarted}
use cezfuzzer.Proxy.Main.{Process, get_instance}

-- Every live block has an address that malloc has given.
abbrev pub IsBounded : World → Type 0
IsBounded w = (p : ℕ) → is_live p w.blocks ≡ true → p < w.next

-- No thread of the handler at `p` can serve a datagram.
pub record IsDangling (p : ℕ) (w : World) : Type 0 where
  pub receives :
      (e : Env) (args : List String) (sock : ℤ) (c : UdpConnection) (others : List ℤ → List ℤ)
      (b : ℕ) (bs : List ℕ) (src : ℤ) (xs : List Round)
      → recv_thread_entry e args p sock c ((others, datagram (b ∷ bs) src) ∷ xs) w ≡ fault
  pub sends :
      (e : Env) (args : List String) (is_from_a : Bool) (c : UdpConnection)
      (others : List ℤ → List ℤ) (b : ℕ) (bs : List ℕ) (src : ℤ) (xs : List Round)
      → send_thread_entry e args p is_from_a c ((others, datagram (b ∷ bs) src) ∷ xs) w ≡ fault

-- The loop is reached with all threads started; the memory is as before, so the handlers are gone,
-- and the threads of UDPHandler are left with a pointer to where theirs was.
pub record IsOutlived (tcp_system : TcpSystem) (entities : List EntityConfig) (p : Process)
    (w w' : World) : Type 0 where
  pub started : IsStarted tcp_system entities p.proxy
  pub deleted : w'.blocks ≡ w.blocks
  pub dangling :
      (side : UdpSide)
      → p.proxy.udp_handler ≡ some side
      → (h : ℕ) × (get_instance p ≡ some h) × IsDangling h w'
