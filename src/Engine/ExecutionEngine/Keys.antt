-- ===== src/Engine/ExecutionEngine/Keys.antt =====
-- packages/engine/src/engine.ts: under which ids the sessions are held.
use tbridge.Base.{
  ◌≡◌, refl, sym, ◌∙◌, String, some, List, [], ◌∷◌, All, get, set, delete, ◌==◌, string_eq, arith,
  if_both, if_split, Option-cases, inl, inr, subst⁻¹,
}
use tbridge.Engine.Session.{is_active}
use tbridge.Engine.ExecutionEngine.Interface.{Sessions}
use tbridge.Engine.ExecutionEngine.{
  ExecutionEngine, attach_session, active_session, Command, writes, resizes, cancels, kills, target,
  asked, command, command_on, finish_close, close_session, prune, prune_exited, close_active,
  shutdown, Event, attaches, commands, closes, settled, prunes, shuts_down, shut_down, updates,
  hears, handle,
}

module _ {S : Type 0} (I : Sessions S) where
  -- Each session is held under its own id.
  abbrev pub Keyed : List (String × S) → Type 0
  Keyed m = All (λ (i : String × S). I.id i.1 ≡ i.0) m

  set-Keyed :
      (i : String) (s : S) (m : List (String × S)) → I.id s ≡ i → Keyed m → Keyed (set i s m)
  unfolding set
  set-Keyed i s [] h k = (h, tt)
  set-Keyed i s ((j, t) ∷ m) h k = ground (arith, set-Keyed i s m h k.1, string_eq.same_iff j i)

  delete-Keyed : (i : String) (m : List (String × S)) → Keyed m → Keyed (delete i m)
  unfolding delete
  delete-Keyed i [] k = tt
  delete-Keyed i ((j, t) ∷ m) k = ground (arith, delete-Keyed i m k.1)

  get-Keyed : (i : String) (s : S) (m : List (String × S)) → Keyed m → get i m ≡ some s → I.id s ≡ i
  unfolding get
  get-Keyed i s [] k h = absurd (ground arith)
  get-Keyed i s ((j, t) ∷ m) k h = ground (arith, get-Keyed i s m k.1, string_eq.same_iff j i)

  prune-Keyed : (m : List (String × S)) → Keyed m → Keyed (prune I m).1
  unfolding prune
  prune-Keyed [] k = tt
  prune-Keyed ((j, t) ∷ m) k = ground (arith, prune-Keyed m k.1)

  close_active-Keyed : (m : List (String × S)) → Keyed m → Keyed (close_active I m)
  unfolding close_active
  close_active-Keyed [] k = tt
  close_active-Keyed ((j, t) ∷ m) k = ground (arith, close_active-Keyed m k.1, I.id-close t)

  id-asked : (c : Command I) (s : S) → I.id (asked I c s).1 ≡ I.id s
  id-asked (writes i text) s = I.id-write s text
  id-asked (resizes i cols rows) s = I.id-resize s cols rows
  id-asked (cancels i) s = I.id-cancel s
  id-asked (kills i) s = I.id-kill s

  active_session-found :
      (e : ExecutionEngine I) (i : String) (s : S)
      → active_session I e i ≡ some s
      → get i e.sessions ≡ some s
  unfolding active_session
  active_session-found e i s h = ground arith

  command-Keyed :
      (e : ExecutionEngine I) (c : Command I) → Keyed e.sessions → Keyed (command I e c).1.sessions
  unfolding command
  command-Keyed e c k = elim (Option-cases (active_session I e (target I c))) [
    | inl h ↦ subst⁻¹ (λ o. Keyed (command_on I e c o).1.sessions) h k
    | inr (s, h) ↦
        subst⁻¹ (λ o. Keyed (command_on I e c o).1.sessions) h
          (set-Keyed (target I c) (asked I c s).1 e.sessions
            (id-asked c s
              ∙ get-Keyed (target I c) s e.sessions k (active_session-found e (target I c) s h))
            k)
  ]

  close_session-Keyed :
      (e : ExecutionEngine I) (i : String) → Keyed e.sessions → Keyed (close_session I e i).sessions
  unfolding close_session finish_close
  close_session-Keyed e i k = elim (Option-cases (get i e.sessions)) [
    | inl h ↦ rw (h, close_session) k
    | inr (s, h) ↦
        rw (h, close_session)
          (if_both (λ (x : ExecutionEngine I). Keyed x.sessions) (is_active (I.status s))
            (set-Keyed i (I.close s) e.sessions (I.id-close s ∙ get-Keyed i s e.sessions k h) k)
            (delete-Keyed i e.sessions k))
  ]

  -- Whatever happens to the engine, each session is held under its own id.
  pub handle-Keyed :
      (e : ExecutionEngine I) (v : Event I) → Keyed e.sessions → Keyed (handle I e v).sessions
  unfolding handle attach_session prune_exited shutdown finish_close
  handle-Keyed e (attaches s) k = set-Keyed (I.id s) s e.sessions refl k
  handle-Keyed e (commands c) k = command-Keyed e c k
  handle-Keyed e (closes i) k = close_session-Keyed e i k
  handle-Keyed e (settled i) k = ground (arith, delete-Keyed i e.sessions k)
  handle-Keyed e prunes k = prune-Keyed e.sessions k
  handle-Keyed e shuts_down k = close_active-Keyed e.sessions k
  handle-Keyed e shut_down k = tt
  handle-Keyed e (updates i s) k = elim (Option-cases (get i e.sessions)) [
    | inl h ↦ rw (h, handle) k
    | inr (old, h) ↦
        rw (h, handle)
          (if_split (λ (x : ExecutionEngine I). Keyed x.sessions) (I.id old == I.id s)
            (λ y.
              set-Keyed i s e.sessions
                (sym ((string_eq.same_iff (I.id old) (I.id s)).0 y)
                  ∙ get-Keyed i old e.sessions k h)
                k)
            (λ n. k))
  ]
  handle-Keyed e (hears i f) k = k
