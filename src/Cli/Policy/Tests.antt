-- ===== src/Cli/Policy/Tests.antt =====
-- apps/cli/src/permissions/policy.ts: the theorem at a policy without a file.
use mathlib.Core.Bool.{false≢true}
use tbridge.Base.{◌≡◌, none, [], string_eq}
use tbridge.Cli.Policy.{
  trusted, asks, allows, Policies, set_user_access, remove_user_access, decide_access,
}
use tbridge.Cli.Policy.Decisions.{decide_after}

abbrev unset : Policies
unset = record { file = none; default_users = [] }

decide_after_example :
    (decide_access (set_user_access unset "bob" trusted "now") "bob" ≡ allows)
    × (decide_access (remove_user_access unset "bob") "bob" ≡ asks)
decide_after_example =
    decide_after unset "bob" "bob" trusted "now"
      (λ h. false≢true ((string_eq.same_iff "bob" "__proto__").1 h))
