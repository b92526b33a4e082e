-- ===== src/Launcher/Handling.antt =====
-- luncher/server/src/Server.cpp: the loop of handle_client_connection, on the stream from a client.
use cezfuzzer.Base.{ℕ, zero, suc, List, Option}
use cezfuzzer.Wire.Stream.{Kernel, Receiver, recv_message}
use cezfuzzer.Launcher.Messages.{buffer_of}
use cezfuzzer.Launcher.Server.{Server, handle_message}

-- The server's variables and what the client has sent and the thread has not read.
pub record Handling : Type 0 where
  pub server : Server
  pub stream : Receiver

-- The result of recv_message() is not looked at.
abbrev pub handle_on : Handling → Option ℕ × List ℕ × Receiver → Handling
handle_on c (ret, bytes, r) = record {
  server = handle_message c.server (buffer_of bytes);
  stream = r;
}

module _ (k : Kernel) where
  -- One round of the loop.
  unfoldable pub handle_turn : Handling → Handling
  handle_turn c = handle_on c (recv_message k c.stream)

  -- The first rounds of the loop, which has no end.
  unfoldable pub handle_rounds : ℕ → Handling → Handling
  handle_rounds zero c = c
  handle_rounds (suc n) c = handle_rounds n (handle_turn c)
