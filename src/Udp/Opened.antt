-- ===== src/Udp/Opened.antt =====
-- proxy/src/UDPHandler.cpp: what createAndBindSocket does to the open sockets.
use cezfuzzer.Base.{
  ℕ, ◌≡◌, ◌≢◌, inl, inr, ℤ, Bool, true, false, List, Option, none, some, elem, elem-delete, ◌&&◌,
  arith, Bool-cases, refl,
}
use cezfuzzer.Udp.Sockets.{System, Net, opened, create_and_bind_socket}

-- socket() gives a descriptor that is not open yet.
pub record IsFresh (sys : System) : Type 0 where
  pub fresh : (n : ℕ) (socks : List ℕ) (s : ℕ) → sys.socket n socks ≡ some s → elem s socks ≡ false

-- What a call leaves: the sockets that were open, and one more if it gives one.
pub record Opens (net net' : Net) (o : Option ℕ) : Type 0 where
  pub kept : (t : ℕ) → elem t net.open_sockets ≡ true → elem t net'.open_sockets ≡ true
  pub not_open : (s : ℕ) → o ≡ some s → elem s net.open_sockets ≡ false
  pub open_now : (s : ℕ) → o ≡ some s → elem s net'.open_sockets ≡ true

module _ (sys : System) (f : IsFresh sys) where
  opened-Opens :
      (port : ℤ) (use_transparent : Bool) (net : Net) (o : Option ℕ)
      → ((s : ℕ) → o ≡ some s → elem s net.open_sockets ≡ false)
      → Opens net
          (opened sys port use_transparent net o).0
          (opened sys port use_transparent net o).1
  opened-Opens port use_transparent net none new = record {
    kept = λ t h. h;
    not_open = λ s e. cc;
    open_now = λ s e. cc;
  }
  opened-Opens port use_transparent net (some sock) new =
      elim (Bool-cases (sys.set_option net.calls use_transparent && sys.bind net.calls port)) [
        | inl ok ↦ rw ok (record {
          kept = λ t h. ground arith;
          not_open = λ s e. new s e;
          open_now = λ s e. ground arith;
        })
        | inr failed ↦ rw failed (record {
          kept = λ t h. ground (arith, elem-delete t sock net.open_sockets, new sock refl);
          not_open = λ s e. cc;
          open_now = λ s e. cc;
        })
      ]

  pub create_and_bind_socket-Opens :
      (port : ℤ) (use_transparent : Bool) (net : Net)
      → Opens net
          (create_and_bind_socket sys port use_transparent net).0
          (create_and_bind_socket sys port use_transparent net).1
  unfolding create_and_bind_socket
  create_and_bind_socket-Opens port use_transparent net =
      opened-Opens port use_transparent net (sys.socket net.calls net.open_sockets)
        (f.fresh net.calls net.open_sockets)

pub Opens-other :
    {net net' : Net} {o : Option ℕ}
    → Opens net net' o
    → (s t : ℕ) → o ≡ some t
    → elem s net.open_sockets ≡ true
    → s ≢ t
Opens-other w s t e h same = cc (w.not_open t e, h, same)
