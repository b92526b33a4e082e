-- ===== src/Launcher/Overtaken.antt =====
-- What becomes of a client that another overtakes.
use cezfuzzer.Base.{
  ℕ, zero, suc, ◌≡◌, ◌≢◌, inl, inr, refl, ℤ, eq_ℤ, eq_ℤ_iff, Bool, true, false, List, [], some, ◌∷◌,
  ◌++◌, if◌then◌else◌, arith, Bool-cases,
}
use cezfuzzer.Launcher.Accepting.{
  NewClient, Acceptor, accept_client, begin_thread, Event, accepts, fails, begins, happen, run,
}

abbrev pub has : ℤ → List ℤ → Bool
has fd [] = false
has fd (x ∷ xs) = if eq_ℤ fd x then true else has fd xs

has-last :
    (fd x : ℤ) (xs : List ℤ) → has fd (xs ++ x ∷ []) ≡ (if eq_ℤ fd x then true else has fd xs)
has-last fd x [] = refl
has-last fd x (y ∷ ys) = ground (arith, has-last fd x ys)

-- The server goes on listening, and no client is accepted with the descriptor.
abbrev pub GoesOn : ℤ → List Event → Type 0
GoesOn fd [] = Unit {0}
GoesOn fd (accepts c ∷ evs) = (fd ≢ c.fd) × (c.thread_starts ≡ true) × GoesOn fd evs
GoesOn fd (fails ∷ evs) = ⊥
GoesOn fd (begins ∷ evs) = GoesOn fd evs

-- The client is in the list of clients, and no thread serves it or is going to.
pub record IsLost (fd : ℤ) (s : Acceptor) : Type 0 where
  pub listed : has fd s.client_fd_list ≡ true
  pub unserved : has fd s.serving ≡ false
  pub replaced : eq_ℤ fd s.client_fd ≡ false
  pub on : s.listening ≡ true

other : (a b : ℤ) → a ≢ b → eq_ℤ a b ≡ false
other a b ne = elim (Bool-cases (eq_ℤ a b)) [
  | inl same ↦ absurd (ne ((eq_ℤ_iff a b).0 same))
  | inr differ ↦ differ
]

-- A client is accepted after the one that is not served.
overtake :
    (fd : ℤ) (c : NewClient) (s : Acceptor)
    → s.listening ≡ true
    → c.thread_starts ≡ true
    → has fd s.client_fd_list ≡ true
    → has fd s.serving ≡ false
    → fd ≢ c.fd
    → IsLost fd (accept_client c s)
unfolding accept_client
overtake fd c s on starts listed unserved ne =
    let differ : eq_ℤ fd c.fd ≡ false = other fd c.fd ne in
    rw (on, starts)
      (record {
        listed = rw (has-last fd c.fd s.client_fd_list, differ) listed;
        unserved = unserved;
        replaced = differ;
        on = refl;
      })

begin_thread-IsLost :
    (fd : ℤ) (s : Acceptor) (n : ℕ)
    → s.starting ≡ n
    → IsLost fd s
    → (s' : Acceptor) × (begin_thread s ≡ some s') × IsLost fd s'
unfolding begin_thread
begin_thread-IsLost fd s zero e w =
    rw e (
      _,
      refl,
      record { listed = w.listed; unserved = w.unserved; replaced = w.replaced; on = w.on },
    )
begin_thread-IsLost fd s (suc n) e w =
    rw (e, w.on)
      (
        _,
        refl,
        record {
          listed = w.listed;
          unserved = rw (has-last fd s.client_fd s.serving, w.replaced) w.unserved;
          replaced = w.replaced;
          on = refl;
        },
      )

run-IsLost :
    (fd : ℤ) (evs : List Event) (s : Acceptor)
    → GoesOn fd evs
    → IsLost fd s
    → (s' : Acceptor) × (run evs s ≡ some s') × IsLost fd s'
unfolding run happen
run-IsLost fd [] s h w = (s, refl, w)
run-IsLost fd (accepts c ∷ evs) s (ne, starts, h) w =
    run-IsLost fd evs (accept_client c s) h (overtake fd c s w.on starts w.listed w.unserved ne)
run-IsLost fd (fails ∷ evs) s h w = absurd h
run-IsLost fd (begins ∷ evs) s h w =
    let (s1, q, w1) = begin_thread-IsLost fd s s.starting refl w in
    let (s2, q2, w2) = run-IsLost fd evs s1 h w1 in (s2, rw q q2, w2)

-- A listening server accepts a client and starts a thread for it, and accepts the next one before
-- this thread has read its descriptor. Then, as long as the server goes on listening (accept() and
-- pthread_create() succeed) and the first client's descriptor is not given to another client,
-- whatever clients come and threads begin: no thread reads the variable after its end, the first
-- client stays in the list of clients, and no thread serves it.
pub run-IsLost_overtaken :
    (s : Acceptor) (a b : NewClient) (evs : List Event)
    → s.listening ≡ true
    → a.thread_starts ≡ true
    → has a.fd s.serving ≡ false
    → GoesOn a.fd (accepts b ∷ evs)
    → (s' : Acceptor) × (run (accepts a ∷ accepts b ∷ evs) s ≡ some s') × IsLost a.fd s'
unfolding run happen accept_client
run-IsLost_overtaken s a b evs on starts new (ne, b_starts, h) =
    let same : eq_ℤ a.fd a.fd ≡ true = (eq_ℤ_iff a.fd a.fd).1 refl in
    let added : Acceptor = accept_client a s in
    let listed : has a.fd added.client_fd_list ≡ true =
      rw (on, starts, has-last a.fd a.fd s.client_fd_list, same) refl in
    let unserved : has a.fd added.serving ≡ false = rw (on, starts) new in
    let still : added.listening ≡ true = rw (on, starts) refl in
    run-IsLost a.fd evs (accept_client b added) h
      (overtake a.fd b added still b_starts listed unserved ne)
