-- ===== src/Cli/Policy/Decisions.antt =====
-- apps/cli/src/permissions/policy.ts: what is decided after the policy has changed.
use tbridge.Base.{
  ◌≡◌, ◌≢◌, refl, ap, ◌∙◌, String, Bool, true, false, Option, none, some, List, if◌then◌else◌, get,
  set, delete, get-set, get-delete, ◌==◌, string_eq, arith,
}
use tbridge.Cli.Policy.{
  AccessMode, TrustedUserPolicy, asks, Policies, load_policy, save_policy, put_user,
  set_user_access, remove_user_access, decision, decide_access,
}

load-save :
    (p : Policies) (users : List (String × TrustedUserPolicy))
    → load_policy (save_policy p users) ≡ users
unfolding load_policy save_policy
load-save p users = ground arith

decision-if :
    (b : Bool) (x y : Option TrustedUserPolicy)
    → decision (if b then x else y) ≡ (if b then decision x else decision y)
decision-if true x y = refl
decision-if false x y = refl

puts :
    (users : List (String × TrustedUserPolicy)) (user : String) (u : TrustedUserPolicy)
    → user ≢ "__proto__"
    → put_user users user u ≡ set user u users
unfolding put_user
puts users user u h = ground (arith, string_eq.same_iff user "__proto__")

-- A change of the policy is what is decided from then on, for that user and no other: a user who was
-- trusted or blocked is let in or refused, one who was removed is asked about, and for every other
-- user the decision is what it was, whether or not there was a policy file. The user is none
-- with the id `__proto__`.
pub decide_after :
    (p : Policies) (user other : String) (access : AccessMode) (now : String)
    → user ≢ "__proto__"
    → (decide_access (set_user_access p user access now) other ≡ (
        if user == other
        then decision (some (record { access = access; updated_at = now }))
        else decide_access p other))
      × (decide_access (remove_user_access p user) other
          ≡ (if user == other then asks else decide_access p other))
unfolding decide_access set_user_access remove_user_access
decide_after p user other access now h =
    let u : TrustedUserPolicy = record { access = access; updated_at = now } in
    (
      ap (λ us. decision (get other us))
            (load-save p (put_user (load_policy p) user u) ∙ puts (load_policy p) user u h)
          ∙ ap decision (get-set user other u (load_policy p))
          ∙ decision-if (user == other) (some u) (get other (load_policy p)),
      ap (λ us. decision (get other us)) (load-save p (delete user (load_policy p)))
          ∙ ap decision (get-delete user other (load_policy p))
          ∙ decision-if (user == other) none (get other (load_policy p)),
    )
