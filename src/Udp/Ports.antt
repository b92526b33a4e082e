-- ===== src/Udp/Ports.antt =====
-- The queue of dynamic ports under any interleaving of the threads that share it.
use mathlib.Core.List.{append-nil, append_assoc}
use cezfuzzer.Base.{
  ◌≡◌, refl, sym, ap, ◌∙◌, ℤ, minus_one, List, [], ◌∷◌, ◌++◌, arith, Bool, true, false,
}
use cezfuzzer.Udp.Connection.{UdpConnection, push_dynamic_port, pop_dynamic_port}

-- A critical section of one of the threads.
pub data PortOp : Type 0 where
  pushed : ℤ → PortOp
  popped : PortOp

abbrev pub step : UdpConnection → PortOp → UdpConnection
step c (pushed port) = push_dynamic_port c port
step c popped = (pop_dynamic_port c minus_one).0

abbrev result : UdpConnection × ℤ × Bool → List ℤ
result (c, port, true) = port ∷ []
result (c, port, false) = []

pub run : UdpConnection → List PortOp → UdpConnection
run c [] = c
run c (op ∷ ops) = run (step c op) ops

-- The ports that were stored_ports, and those that were handed out, oldest first.
pub stored_ports : List PortOp → List ℤ
stored_ports [] = []
stored_ports (pushed port ∷ ops) = port ∷ stored_ports ops
stored_ports (popped ∷ ops) = stored_ports ops

pub handed_out : UdpConnection → List PortOp → List ℤ
handed_out c [] = []
handed_out c (pushed port ∷ ops) = handed_out (step c (pushed port)) ops
handed_out c (popped ∷ ops) =
    result (pop_dynamic_port c minus_one) ++ handed_out (step c popped) ops

pop_splits :
    (c : UdpConnection) (q : List ℤ)
    → c.dynamic_ports ≡ q
    → result (pop_dynamic_port c minus_one) ++ (step c popped).dynamic_ports ≡ q
unfolding pop_dynamic_port
pop_splits c [] e = ground arith
pop_splits c (x ∷ xs) e = ground arith

-- Whatever the order of the calls of pushDynamicPort and popDynamicPort: the ports handed out,
-- followed by those in the queue at the end, are those in the queue at the start followed by those
-- stored, in order.
pub handed_out_fifo :
    (c : UdpConnection) (ops : List PortOp)
    → handed_out c ops ++ (run c ops).dynamic_ports ≡ c.dynamic_ports ++ stored_ports ops
unfolding run stored_ports handed_out
handed_out_fifo c [] = sym (append-nil c.dynamic_ports)
handed_out_fifo c (pushed port ∷ ops) =
    handed_out_fifo (push_dynamic_port c port) ops
    ∙ unfold push_dynamic_port in append_assoc c.dynamic_ports (port ∷ []) (stored_ports ops)
handed_out_fifo c (popped ∷ ops) =
    append_assoc (result (pop_dynamic_port c minus_one)) (handed_out (step c popped) ops)
      (run (step c popped) ops).dynamic_ports
    ∙ ap (◌++◌ (result (pop_dynamic_port c minus_one))) (handed_out_fifo (step c popped) ops)
    ∙ sym (
        append_assoc (result (pop_dynamic_port c minus_one)) (step c popped).dynamic_ports
          (stored_ports ops))
    ∙ ap (λ (q : List ℤ). q ++ stored_ports ops) (pop_splits c c.dynamic_ports refl)
