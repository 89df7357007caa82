-- ===== src/Cli/Terminal/Host/Consent.antt =====
-- apps/cli/src/terminal/remote-host.ts: who is let in.
use tbridge.Base.{
  String, none, get-delete, subst⁻¹, ◌∙◌, ℕ, ◌++◌, ◌≡◌, ◌≢◌, refl, ◌⊎◌, inl, inr, Bool, true, false,
  some, List, [], ◌∷◌, keep, keep-append, get, nat_eq, string_eq, arith, if_both, Bool-cases,
  Option-cases,
}
use mathlib.Core.List.{append-nil}
use tbridge.Protocol.Legacy.{ClientMessage, ServerMessage}
use tbridge.Crypto.{Primitives}
use tbridge.Cli.Policy.Commands.{deny_user}
use tbridge.Cli.Policy.Decisions.{decide_after}
use tbridge.Cli.Policy.{blocked, denies, Policies, PolicyDecision, allows, decide_access}
use tbridge.Cli.Terminal.Sockets.{Encoding}
use tbridge.Cli.Terminal.Host.{
  Output, sent, Request, Host, send, close, connect_socket, on_open, spawn_shared_pty, on_data,
  on_exit, on_access_request, reply, on_decision, on_answer, on_session_ready, on_key_exchange,
  on_encrypted_data, on_message, on_drain, attempt_reconnect, on_close, on_error, on_wait, Event,
  opens, closes, fails, receives, outputs, exits, decides, answers, drains, waited, react, handle,
}

abbrev pub is_approval : Output → Bool
is_approval (sent k ClientMessage.access_approved) = true
is_approval o = false

abbrev pub approvals : List Output → List Output
approvals os = keep is_approval os

approvals_quiet :
    (os : List Output) (o : Output)
    → is_approval o ≡ false
    → approvals (os ++ o ∷ []) ≡ approvals os
approvals_quiet os o h =
    ground (arith, keep-append is_approval os (o ∷ []), append-nil (approvals os))

module _ (N : Primitives) (E : Encoding N) where
  -- The event lets the requester of a request in: the policy that is read allows them, or the host,
  -- who is being asked, says yes.
  abbrev pub Consents : Host N E → Event N E → Type 0
  Consents h (decides id policies) =
      (q : Request) × (get id h.asking ≡ some q)
      × (decide_access policies q.requester.user_id ≡ allows)
  Consents h (answers id true) = (q : Request) × (get id h.asking ≡ some q) × (q.prompted ≡ true)
  Consents h e = ⊥

  abbrev Quiet : Host N E → Host N E → Type 0
  Quiet h h' = approvals h'.out ≡ approvals h.out

  on_message-Quiet :
      (h : Host N E) (k : ℕ) (m : ServerMessage) (key : N.PrivateKey)
      → Quiet h (on_message N E h k m key)
  unfolding on_message on_session_ready on_key_exchange on_encrypted_data on_access_request close
      send spawn_shared_pty
  on_message-Quiet h k m key = grind (arith, approvals_quiet)

  on_decision-approves :
      (h : Host N E) (id : ℕ) (q : Request) (policies : Policies)
      → decide_access policies q.requester.user_id ≢ allows
      → Quiet h (on_decision N E h id q policies)
  unfolding on_decision reply send
  on_decision-approves h id q policies ne = grind (arith, approvals_quiet)

  allows-cases : (d : PolicyDecision) → (d ≡ allows) ⊎ (d ≢ allows)
  allows-cases d = ground arith

  react-approves : (h : Host N E) (e : Event N E) → Quiet h (react N E h e) ⊎ Consents h e
  unfolding react on_open on_close on_error attempt_reconnect on_drain on_wait connect_socket send
      on_data on_exit close on_answer reply
  react-approves h (opens k) = inl (grind (arith, approvals_quiet))
  react-approves h (closes k) = inl (grind (arith, approvals_quiet))
  react-approves h (fails k) = inl (grind (arith, approvals_quiet))
  react-approves h (receives k m key) = inl (grind (arith, on_message-Quiet))
  react-approves h (outputs id text buffered) = inl (grind (arith, approvals_quiet))
  react-approves h (exits id code signal) = inl (grind (arith, approvals_quiet))
  react-approves h (decides id policies) = elim (Option-cases (get id h.asking)) [
    | inl e ↦ inl (ground arith)
    | inr (q, e) ↦ elim (allows-cases (decide_access policies q.requester.user_id)) [
      | inl y ↦ inr (q, e, y)
      | inr n ↦ inl (ground (arith, on_decision-approves h id q policies n))
    ]
  ]
  react-approves h (answers id true) = elim (Option-cases (get id h.asking)) [
    | inl e ↦ inl (ground arith)
    | inr (q, e) ↦ elim (Bool-cases q.prompted) [
      | inl y ↦ inr (q, e, y)
      | inr n ↦ inl (ground arith)
    ]
  ]
  react-approves h (answers id false) = inl (grind (arith, approvals_quiet))
  react-approves h (drains k buffered) = inl (grind (arith, approvals_quiet))
  react-approves h (waited id) = inl (grind (arith, approvals_quiet))

  -- Nobody is let in unasked: an event that makes the host send ACCESS_APPROVED is the reading of a
  -- policy that allows the requester, or the host's yes to a prompt that is shown.
  pub handle_approves :
      (h : Host N E) (e : Event N E)
      → (approvals (handle N E h e).out ≡ approvals h.out) ⊎ Consents h e
  unfolding handle
  handle_approves h e =
      if_both (λ (x : Host N E). (approvals x.out ≡ approvals h.out) ⊎ Consents h e) h.crashed
        (inl refl) (react-approves h e)

  deny-decides :
      (p : Policies) (user now : String)
      → user ≢ "__proto__"
      → decide_access (deny_user p user now) user ≡ denies
  unfolding deny_user
  deny-decides p user now h =
      (decide_after p user user blocked now h).0 ∙ ground (arith, string_eq.same_iff user user)

  on_decision-denies :
      (h : Host N E) (id : ℕ) (q : Request) (p : Policies)
      → decide_access p q.requester.user_id ≡ denies
      → (approvals (on_decision N E h id q p).out ≡ approvals h.out)
        × (get id (on_decision N E h id q p).asking ≡ none)
  unfolding on_decision reply send
  on_decision-denies h id q p d = grind (arith, approvals_quiet, get-delete id id h.asking)

  react-denies :
      (h : Host N E) (id : ℕ) (q : Request) (p : Policies)
      → get id h.asking ≡ some q
      → q.prompted ≡ false
      → react N E h (decides id p) ≡ on_decision N E h id q p
  unfolding react
  react-denies h id q p e n = ground arith

  -- After `tbridge deny` of a user whose id is not `__proto__`, a request by that user which the host
  -- decides under the policy is refused: nothing is approved, and the request is gone, so nobody is
  -- asked about it.
  pub denied_refused :
      (h : Host N E) (id : ℕ) (q : Request) (p : Policies) (now : String)
      → h.crashed ≡ false
      → get id h.asking ≡ some q
      → q.prompted ≡ false
      → q.requester.user_id ≢ "__proto__"
      → let h' = handle N E h (decides id (deny_user p q.requester.user_id now)) in
        (approvals h'.out ≡ approvals h.out) × (get id h'.asking ≡ none)
  unfolding handle
  denied_refused h id q p now up e n ne =
      let policies = deny_user p q.requester.user_id now in
      let run : handle N E h (decides id policies) ≡ on_decision N E h id q policies =
        ground (arith, up, react-denies h id q policies e n) in
      subst⁻¹ (λ x. (approvals x.out ≡ approvals h.out) × (get id x.asking ≡ none)) run
        (on_decision-denies h id q policies (deny-decides p q.requester.user_id now ne))
