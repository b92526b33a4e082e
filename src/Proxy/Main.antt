-- ===== src/Proxy/Main.antt =====
-- proxy/src/main.cpp: what main comes to. The thread that it starts only flushes the output.
use cezfuzzer.Base.{ℕ, Bool, Option, none, some, String, List, if◌then◌else◌, ltb}
use cezfuzzer.Config.Entity.{EntityConfig}
use cezfuzzer.Config.Yaml.{Yaml}
use cezfuzzer.Fuzzer.Memory.{M, pure, ◌>>=◌, ◌>>◌, done, push, fresh, free_ptr}
use cezfuzzer.Udp.Sockets.{System}
use cezfuzzer.Tcp.Channel.{TcpSystem}
use cezfuzzer.Proxy.Base.{ProxyBase, proxy_base}

-- The handlers that were made, with the threads that go on; the static pointer of UDPHandler;
-- whether the output is flushed.
pub record Process : Type 0 where
  pub proxy : ProxyBase
  pub instance_ : Option ℕ
  pub flushed : Bool

-- `exited` is the exit() in the constructor of ProxyBase; `looping` has reached the empty loop.
pub data MainEnd : Type 0 where
  returned exited : ℕ → MainEnd
  looping : Process → MainEnd

unfoldable pub get_instance : Process → Option ℕ
get_instance p = p.instance_

-- make_unique of a handler that is made: a new block, which stands for the object and its parts.
abbrev pub make_unique : {H : Type 0} → Option H → M (Option ℕ)
make_unique none w = done none w
make_unique (some h) w = done (some w.next) (push w (fresh 1))

-- The end of the try block: the unique_ptrs of the ProxyBase delete the handlers, the last first.
abbrev pub destroy : Option ℕ → Option ℕ → M (Unit {0})
destroy udp_handler tcp_handler = (free_ptr tcp_handler >> free_ptr udp_handler)

-- After the constructor; `flush_ok` is the success of pthread_create().
abbrev pub after_construction : Bool → Option ProxyBase → M MainEnd
after_construction flush_ok none = pure (exited 255)
after_construction flush_ok (some proxy) = do
  udp_handler ← make_unique proxy.udp_handler
  tcp_handler ← make_unique proxy.tcp_handler
  destroy udp_handler tcp_handler
  pure (looping (record { proxy = proxy; instance_ = udp_handler; flushed = flush_ok }))

-- main, on what YAML::LoadFile gives for argv[1]; `throws` is an exception in the constructor.
unfoldable pub proxy_main :
    {N : Type 0}
    → (String → System)
    → TcpSystem
    → EntityConfig
    → List ℕ
    → ℕ
    → Yaml N
    → Option N
    → Bool
    → Bool
    → M MainEnd
proxy_main udp_system tcp_system unset open_fds argc y doc throws flush_ok =
    if ltb argc 2
    then pure (returned 1)
    else if throws
    then pure (returned 1)
    else after_construction flush_ok (proxy_base udp_system tcp_system unset open_fds y doc)
