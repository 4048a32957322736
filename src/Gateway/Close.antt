-- ===== src/Gateway/Close.antt =====
-- closeSocket and closeAllSockets of gateway.go: a socket that is closed is gone everywhere, once.
use eurus.Prelude.{
  ℕ, String, List, [], ◌∷◌, ◌++◌, none, some, false, ◌≡◌, refl, arith, ◌==◌, inl, inr, Option-cases,
  ap, ◌∙◌, sym, string_eq, if◌then◌else◌, lookup, delete, lookup-delete,
}
use text.Mathlib.TextEquality.{eq_iff}
use eurus.Indexer.{State}
use eurus.Indexer.Sockets.{pin, unmap_socket}
use eurus.Indexer.Valid.{IsValid}
use eurus.Indexer.Unmap.{unmap_socket-IsValid, unmap_socket-Forgets, closed-unmap_socket}
use eurus.Gateway.{Gateway, Call, Status, socket_close, closed_socket, close_socket, unmap}

module _ {P I M : Type 0} where
  -- After the calls in `before` the socket was closed with this status and the closing was broadcast; it
  -- is not registered, and an open indexer maps it nowhere.
  pub record IsDropped (socket_id : String) (socket : ℕ) (status : Status) (reason : String)
      (before : List (Call I M)) (g : Gateway P I M) : Type 0 where
    pub indexer : State P
    pub current : g.gsi ≡ some indexer
    pub valid : IsValid indexer
    pub last_calls :
        g.calls
        ≡ before ++ (socket_close socket status reason ∷ closed_socket socket_id status reason ∷ [])
    pub unregistered : lookup socket_id g.sockets ≡ none
    pub unpinned :
        indexer.closed ≡ false → (n : String) → pin n socket_id indexer.socket_to_instance ≡ none

  module _ (socket_id : String) (status : Status) (reason : String) (g : Gateway P I M) where
    pub close_registered :
        (socket : ℕ)
        → lookup socket_id g.sockets ≡ some socket
        → close_socket socket_id status reason g ≡ record g {
          sockets = delete socket_id g.sockets;
          calls =
              g.calls
              ++ (socket_close socket status reason ∷ closed_socket socket_id status reason ∷ []);
          gsi = unmap socket_id g.gsi;
        }
    unfolding close_socket
    close_registered socket e = ground arith

    close_absent : lookup socket_id g.sockets ≡ none → close_socket socket_id status reason g ≡ g
    unfolding close_socket
    close_absent e = ground arith

    unpinned_after :
        (s : State P)
        → IsValid s
        → (unmap_socket socket_id s).closed ≡ false
        → (n : String) → pin n socket_id (unmap_socket socket_id s).socket_to_instance ≡ none
    unpinned_after s v e =
        (unmap_socket-Forgets socket_id s v (sym (closed-unmap_socket socket_id s) ∙ e)).unpinned

    -- If the indexer is valid, a registered socket is closed, its closing is broadcast, it is no longer
    -- registered, and the indexer, if it is open, no longer maps it.
    pub close_socket-IsDropped :
        (socket : ℕ) (s : State P)
        → lookup socket_id g.sockets ≡ some socket
        → g.gsi ≡ some s
        → IsValid s
        → IsDropped socket_id socket status reason g.calls (close_socket socket_id status reason g)
    close_socket-IsDropped socket s registered current v =
        rw (close_registered socket registered) (record {
          indexer = unmap_socket socket_id s;
          current = ap (unmap socket_id) current;
          valid = unmap_socket-IsValid socket_id s v;
          last_calls = refl;
          unregistered =
              ground
                (arith, lookup-delete socket_id socket_id g.sockets, eq_iff socket_id socket_id);
          unpinned = unpinned_after s v;
        })

    -- closeSocket closes the client and broadcasts the closure exactly when the socket is
    -- registered, leaves the other sockets registered, and does nothing when it is called again.
    pub close_socket_once :
        ((socket : ℕ)
          → lookup socket_id g.sockets ≡ some socket
          → (close_socket socket_id status reason g).calls
            ≡ g.calls
              ++ (socket_close socket status reason ∷ closed_socket socket_id status reason ∷ []))
        × ((k : String)
            → lookup k (close_socket socket_id status reason g).sockets
              ≡ (if socket_id == k then none else lookup k g.sockets))
        × ((other : Status) (why : String)
            → close_socket socket_id other why (close_socket socket_id status reason g)
              ≡ close_socket socket_id status reason g)
    close_socket_once = (calls_after, sockets_after, again)
      where
        calls_after :
            (socket : ℕ)
            → lookup socket_id g.sockets ≡ some socket
            → (close_socket socket_id status reason g).calls
              ≡ g.calls
                ++ (socket_close socket status reason ∷ closed_socket socket_id status reason ∷ [])
        calls_after socket e = rw (close_registered socket e) refl

        sockets_after :
            (k : String)
            → lookup k (close_socket socket_id status reason g).sockets
              ≡ (if socket_id == k then none else lookup k g.sockets)
        sockets_after k = elim (Option-cases (lookup socket_id g.sockets)) [
          | inl absent ↦ rw (close_absent absent) (ground (arith, eq_iff socket_id k))
          | inr (socket, e) ↦ rw (close_registered socket e) (lookup-delete socket_id k g.sockets)
        ]

        again :
            (other : Status) (why : String)
            → close_socket socket_id other why (close_socket socket_id status reason g)
              ≡ close_socket socket_id status reason g
        again other why =
            unfold close_socket in
            ground (arith, sockets_after socket_id, eq_iff socket_id socket_id)
