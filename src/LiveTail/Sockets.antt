-- ===== src/LiveTail/Sockets.antt =====
-- Which sockets the hook can still reach.
use kafka_ui.Base.{
  ℕ, zero, suc, ◌≡◌, ◌≢◌, refl, sym, ap, ◌⊎◌, inl, inr, Bool, true, false, none, some, List, [],
  ◌∷◌, ◌++◌, length, get_elem?, arith,
}
use kafka_ui.LiveTail.{Hook, Socket, ReadyState, pending, open_now, closing, closed, at_socket}

-- A socket that is not on its way to be closed.
abbrev pub alive_ready : ReadyState → Bool
alive_ready pending = true
alive_ready open_now = true
alive_ready closing = false
alive_ready closed = false

abbrev pub is_alive : Socket → Bool
is_alive s = alive_ready s.ready

-- Every living socket is the one that `wsRef` holds: none is out of the reach of `disconnect`.
abbrev pub NoLeak : Hook → Type 0
NoLeak h =
    (k : ℕ) (s : Socket) → get_elem? h.sockets k ≡ some s → is_alive s ≡ true → h.ref ≡ some k

-- A change of one socket, read at that position and at another.
pub get_elem?-at_socket_self :
    (ss : List Socket) (i : ℕ) (f : Socket → Socket) (s : Socket)
    → get_elem? ss i ≡ some s
    → get_elem? (at_socket ss i f) i ≡ some (f s)
get_elem?-at_socket_self [] i f s e = cc
get_elem?-at_socket_self (t ∷ ss) zero f s e = let same : t ≡ s = cc in rw same refl
get_elem?-at_socket_self (t ∷ ss) (suc i) f s e = get_elem?-at_socket_self ss i f s e

pub get_elem?-at_socket_ne :
    (ss : List Socket) (i j : ℕ) (f : Socket → Socket)
    → i ≢ j
    → get_elem? (at_socket ss i f) j ≡ get_elem? ss j
get_elem?-at_socket_ne [] i j f ne = refl
get_elem?-at_socket_ne (t ∷ ss) zero zero f ne = absurd (ne refl)
get_elem?-at_socket_ne (t ∷ ss) zero (suc j) f ne = refl
get_elem?-at_socket_ne (t ∷ ss) (suc i) zero f ne = refl
get_elem?-at_socket_ne (t ∷ ss) (suc i) (suc j) f ne =
    get_elem?-at_socket_ne ss i j f (λ e. ne (ap suc e))

-- What a position of the changed list held before.
abbrev pub OldSocket : List Socket → ℕ → ℕ → (Socket → Socket) → Socket → Type 0
OldSocket ss i k f s =
    (t : Socket) × (get_elem? ss k ≡ some t) × (((i ≢ k) × (s ≡ t)) ⊎ ((i ≡ k) × (s ≡ f t)))

pub at_socket_old :
    (ss : List Socket) (i k : ℕ) (f : Socket → Socket) (s : Socket)
    → get_elem? (at_socket ss i f) k ≡ some s
    → OldSocket ss i k f s
at_socket_old [] i k f s e = cc
at_socket_old (t ∷ ss) zero zero f s e = (t, refl, inr (refl, cc))
at_socket_old (t ∷ ss) zero (suc k) f s e = (s, e, inl (omega arith, refl))
at_socket_old (t ∷ ss) (suc i) zero f s e = (t, refl, inl (omega arith, cc))
at_socket_old (t ∷ ss) (suc i) (suc k) f s e = next (at_socket_old ss i k f s e)
  where
    next : OldSocket ss i k f s → OldSocket (t ∷ ss) (suc i) (suc k) f s
    next (u, found, inl (ne, same)) = (u, found, inl ((λ h. ne (omega arith)), same))
    next (u, found, inr (at, same)) = (u, found, inr (ap suc at, same))

-- A change that brings no socket to life keeps the others, and the changed one as it was.
pub at_socket-NoLeak :
    (h : Hook) (i : ℕ) (f : Socket → Socket)
    → ((t : Socket) → get_elem? h.sockets i ≡ some t → is_alive (f t) ≡ true → is_alive t ≡ true)
    → NoLeak h
    → NoLeak (record h { sockets = at_socket h.sockets i f })
at_socket-NoLeak h i f keeps ok k s e alive = from (at_socket_old h.sockets i k f s e)
  where
    from : OldSocket h.sockets i k f s → h.ref ≡ some k
    from (t, found, inl (ne, same)) = ok k t found (rw same at alive)
    from (t, found, inr (at, same)) =
        ok k t found (keeps t (rw (sym at) at found) (rw same at alive))

-- Ending the life of the socket that `wsRef` holds lets `wsRef` go.
pub release-NoLeak :
    (h : Hook) (i : ℕ) (f : Socket → Socket)
    → h.ref ≡ some i
    → ((t : Socket) → is_alive (f t) ≡ false)
    → NoLeak h
    → NoLeak (record h { sockets = at_socket h.sockets i f; ref = none })
release-NoLeak h i f held ends ok k s e alive = from (at_socket_old h.sockets i k f s e)
  where
    from : OldSocket h.sockets i k f s → none ≡ some k
    from (t, found, inl (ne, same)) =
        let at : h.ref ≡ some k = ok k t found (rw same at alive) in absurd (ne (cc))
    from (t, found, inr (at, same)) = let dead : is_alive s ≡ false = rw same (ends t) in cc

-- A new socket at the end of the list.
pub get_elem?-append_new :
    (ss : List Socket) (new : Socket) (k : ℕ) (s : Socket)
    → get_elem? (ss ++ new ∷ []) k ≡ some s
    → (get_elem? ss k ≡ some s) ⊎ (k ≡ length ss)
get_elem?-append_new [] new zero s e = inr refl
get_elem?-append_new [] new (suc k) s e = cc
get_elem?-append_new (t ∷ ss) new zero s e = inl e
get_elem?-append_new (t ∷ ss) new (suc k) s e = next (get_elem?-append_new ss new k s e)
  where
    next :
        (get_elem? ss k ≡ some s) ⊎ (k ≡ length ss)
        → (get_elem? ss k ≡ some s) ⊎ (suc k ≡ suc (length ss))
    next (inl old) = inl old
    next (inr new) = inr (ap suc new)
