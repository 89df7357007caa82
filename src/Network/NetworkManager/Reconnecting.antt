-- ===== src/Network/NetworkManager/Reconnecting.antt =====
-- packages/network/src/network-manager.ts: reconnecting to the relay.
use tbridge.Base.{
  ℕ, zero, suc, ◌+◌, ◌*◌, ◌^◌, ◌≡◌, min, String, false, none, some, List, [], ◌∷◌, if◌then◌else◌,
  get, delete, get-set, ◌==◌, nat_eq, string_eq, arith, subst,
}
use tbridge.Crypto.{Primitives}
use tbridge.Network.PeerConnection.{Json}
use tbridge.Network.NetworkManager.{
  disconnected, connecting, Retry, NetworkManager, cleanup, connect, disconnect, schedule_reconnect,
  reconnect_delay, on_close, on_retry, Event, disconnects, closes, fires, handle, handle_all,
}

module _ (N : Primitives) (J : Json N) where
  -- A timer that is to connect again, after so many attempts that failed.
  abbrev pub Retrying : NetworkManager N J → ℕ → ℕ → String → Type 0
  Retrying m i attempts url =
      (m.status ≡ disconnected)
      × (m.reconnect_attempts ≡ attempts)
      × (get i m.retries ≡ some (record { delay = min (1000 * 2 ^ attempts) 30000; url = url }))

  schedule_reconnect-Retrying :
      (m : NetworkManager N J) (url : String)
      → m.status ≡ disconnected
      → Retrying (schedule_reconnect N J m url) m.next_retry (suc m.reconnect_attempts) url
        × ((schedule_reconnect N J m url).next_socket ≡ m.next_socket)
        × ((schedule_reconnect N J m url).next_retry ≡ suc m.next_retry)
  unfolding schedule_reconnect
  schedule_reconnect-Retrying m url d =
      let r : Retry = record {
        delay = reconnect_delay N J (suc m.reconnect_attempts);
        url = url;
      } in
      ground (arith, get-set m.next_retry m.next_retry r m.retries)

  cleanup-kept :
      (m : NetworkManager N J)
      → ((cleanup N J m).status ≡ disconnected)
        × ((cleanup N J m).reconnect_attempts ≡ m.reconnect_attempts)
        × ((cleanup N J m).next_retry ≡ m.next_retry)
        × ((cleanup N J m).retries ≡ m.retries)
        × ((cleanup N J m).next_socket ≡ m.next_socket)
  unfolding cleanup
  cleanup-kept m = ground arith

  on_close-Retrying :
      (m : NetworkManager N J) (url : String)
      → Retrying (on_close N J m url) m.next_retry (suc m.reconnect_attempts) url
        × ((on_close N J m url).next_socket ≡ m.next_socket)
        × ((on_close N J m url).next_retry ≡ suc m.next_retry)
  unfolding on_close
  on_close-Retrying m url =
      let kept = cleanup-kept m in
      ground (arith, kept, schedule_reconnect-Retrying (cleanup N J m) url kept.0)

  closes-Retrying :
      (m : NetworkManager N J) (k : ℕ) (url : String)
      → get k m.sockets ≡ some url
      → Retrying (handle N J m (closes k)) m.next_retry (suc m.reconnect_attempts) url
        × ((handle N J m (closes k)).next_socket ≡ m.next_socket)
        × ((handle N J m (closes k)).next_retry ≡ suc m.next_retry)
  unfolding handle
  closes-Retrying m k url h =
      let m' = record m {
        sockets = delete k m.sockets;
        open_sockets = λ j. if j == k then false else m.open_sockets j;
      } in
      ground (arith, on_close-Retrying m' url)

  -- The timer has opened a socket.
  abbrev Dialling : NetworkManager N J → NetworkManager N J → String → Type 0
  Dialling m m' url =
      (get m.next_socket m'.sockets ≡ some url)
      × (m'.reconnect_attempts ≡ m.reconnect_attempts)
      × (m'.next_socket ≡ suc m.next_socket)
      × (m'.next_retry ≡ m.next_retry)
      × (m'.status ≡ connecting)
      × (m'.ws ≡ some m.next_socket)

  fires-Dialling :
      (m : NetworkManager N J) (i attempts : ℕ) (url : String)
      → Retrying m i attempts url
      → Dialling m (handle N J m (fires i)) url
  unfolding handle on_retry connect
  fires-Dialling m i attempts url (d, a, r) =
      ground (arith, get-set m.next_socket m.next_socket url m.sockets)

  -- An attempt: its timer fires, and the socket that it opens closes.
  attempt-Retrying :
      (m : NetworkManager N J) (i attempts : ℕ) (url : String)
      → Retrying m i attempts url
      → let m' = handle N J (handle N J m (fires i)) (closes m.next_socket) in
        Retrying m' m.next_retry (suc attempts) url
        × (m'.next_socket ≡ suc m.next_socket)
        × (m'.next_retry ≡ suc m.next_retry)
  attempt-Retrying m i attempts url r =
      let x = handle N J m (fires i) in
      let dialled = fires-Dialling m i attempts url r in
      ground (arith, r, dialled, closes-Retrying x m.next_socket url dialled.0)

  -- The events of an outage: each timer, the first of which is `i`, opens a socket, the first of
  -- which is `k`, that closes without having opened; the next timer is `w`.
  unfoldable pub outage : ℕ → ℕ → ℕ → ℕ → List (Event N J)
  outage zero i k w = []
  outage (suc n) i k w = fires i ∷ closes k ∷ outage n w (suc k) (suc w)

  -- A relay that is away is never given up: after any number of further attempts that fail, a timer
  -- runs that is to connect again to the same url, and its delay is 1000 ms doubled by each attempt
  -- that failed, and 30000 ms at most.
  pub outage_retries :
      (n : ℕ) (m : NetworkManager N J) (i attempts : ℕ) (url : String)
      → Retrying m i attempts url
      → (j : ℕ) × Retrying
          (handle_all N J m (outage n i m.next_socket m.next_retry))
          j
          (attempts + n)
          url
  unfolding outage handle_all
  outage_retries zero m i attempts url r = (i, subst (λ t. Retrying m i t url) (omega arith) r)
  outage_retries (suc n) m i attempts url r =
      let m' = handle N J (handle N J m (fires i)) (closes m.next_socket) in
      let (again, socket, retry) = attempt-Retrying m i attempts url r in
      let (j, rest) = outage_retries n m' m.next_retry (suc attempts) url again in
      (
        j,
        subst
            (λ t.
              Retrying
                (handle_all N J m' (outage n m.next_retry (suc m.next_socket) (suc m.next_retry))) j
                t url)
            (omega arith)
            (subst
              (λ w.
                Retrying (handle_all N J m' (outage n m.next_retry (suc m.next_socket) w)) j
                  (suc attempts + n) url)
              retry
              (subst
                (λ k.
                  Retrying (handle_all N J m' (outage n m.next_retry k m'.next_retry)) j
                    (suc attempts + n) url)
                socket rest)),
      )

  disconnect-kept :
      (m : NetworkManager N J) (k : ℕ)
      → m.ws ≡ some k
      → ((handle N J m disconnects).status ≡ disconnected)
        × ((handle N J m disconnects).ws ≡ none)
        × ((handle N J m disconnects).sockets ≡ m.sockets)
        × ((handle N J m disconnects).next_socket ≡ m.next_socket)
        × ((handle N J m disconnects).next_retry ≡ m.next_retry)
  unfolding handle disconnect cleanup
  disconnect-kept m k h = ground arith

  -- A `disconnect` that is asked for does not last: the close of the socket that it closes begins a
  -- timer, and when that fires, the manager connects to the same url again.
  pub disconnect_undone :
      (m : NetworkManager N J) (k : ℕ) (url : String)
      → m.ws ≡ some k
      → get k m.sockets ≡ some url
      → let gone = handle N J m disconnects in
        let again = handle_all N J m (disconnects ∷ closes k ∷ fires m.next_retry ∷ []) in
        (gone.status ≡ disconnected)
        × (gone.ws ≡ none)
        × (again.status ≡ connecting)
        × (again.ws ≡ some m.next_socket)
        × (get m.next_socket again.sockets ≡ some url)
  unfolding handle_all
  disconnect_undone m k url w h =
      let x = handle N J m disconnects in
      let y = handle N J x (closes k) in
      let kept = disconnect-kept m k w in
      let closed = closes-Retrying x k url (ground (arith, kept, h)) in
      let back : Retrying y m.next_retry (suc x.reconnect_attempts) url =
        ground (arith, kept, closed) in
      ground
        (arith, kept, closed, fires-Dialling y m.next_retry (suc x.reconnect_attempts) url back)
