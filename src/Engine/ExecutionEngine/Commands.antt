-- ===== src/Engine/ExecutionEngine/Commands.antt =====
-- packages/engine/src/engine.ts: what a command does to the sessions.
use tbridge.Base.{
  ◌+◌, ◌≡◌, ◌≢◌, refl, String, Bool, true, false, not, Option, none, some, List, [], ◌∷◌, length,
  get, get-set, string_eq, arith, if◌then◌else◌, Option-cases, inl, inr,
}
use tbridge.Engine.Session.{is_active, is_exited}
use tbridge.Protocol.Envelopes.{SessionStatus}
use tbridge.Engine.ExecutionEngine.Interface.{Sessions}
use tbridge.Engine.ExecutionEngine.{
  ExecutionEngine, active_in, active_session, Command, writes, resizes, cancels, kills, target,
  asked, command, prune,
}

abbrev pub is_refusal : Option Bool → Bool
is_refusal (some false) = true
is_refusal a = false

module _ {S : Type 0} (I : Sessions S) where
  -- The session is there, and its status is active.
  abbrev pub reached : Option S → Bool
  reached none = false
  reached (some s) = is_active (I.status s)

  -- What the session's own method makes of it.
  abbrev pub method : Command I → S → S
  method (writes i text) s = (I.write s text).1
  method (resizes i cols rows) s = (I.resize s cols rows).1
  method (cancels i) s = I.cancel s
  method (kills i) s = I.kill s

  abbrev pub changed : Command I → Option S → Option S
  changed c none = none
  changed c (some s) = if is_active (I.status s) then some (method c s) else some s

  method-asked : (c : Command I) (s : S) → (asked I c s).1 ≡ method c s
  method-asked (writes i text) s = refl
  method-asked (resizes i cols rows) s = refl
  method-asked (cancels i) s = refl
  method-asked (kills i) s = refl

  -- A command reaches the session that it names, and no other: it answers false exactly where that
  -- session is not there or its status is not active, it leaves each session of another id as it is,
  -- and it changes the named one by its own write, resize, cancel or kill where that is active, and
  -- not at all where it is not.
  pub command_isolated :
      (e : ExecutionEngine I) (c : Command I) (j : String)
      → j ≢ target I c
      → (is_refusal (command I e c).0 ≡ not (reached (get (target I c) e.sessions)))
        × (get j (command I e c).1.sessions ≡ get j e.sessions)
        × (get (target I c) (command I e c).1.sessions ≡ changed c (get (target I c) e.sessions))
  unfolding command active_session
  command_isolated e c j ne = elim (Option-cases (get (target I c) e.sessions)) [
    | inl x ↦ ground (arith, x)
    | inr (s, x) ↦
        let t : S = (asked I c s).1 in
        ground (
          arith,
          x,
          method-asked c s,
          get-set (target I c) j t e.sessions,
          get-set (target I c) (target I c) t e.sessions,
          string_eq.same_iff (target I c) j,
          string_eq.same_iff (target I c) (target I c),
        )
  ]

  prune_counts :
      (m : List (String × S))
      → (length (prune I m).1 + (prune I m).0 ≡ length m)
        × (active_in I (prune I m).1 ≡ active_in I m)
  unfolding prune active_in
  prune_counts [] = (refl, refl)
  prune_counts ((i, s) ∷ m) = ground (arith, prune_counts m, exited_or_active (I.status s))
    where
      exited_or_active : (t : SessionStatus) → is_exited t ≡ true → is_active t ≡ false
      exited_or_active t h = ground arith
