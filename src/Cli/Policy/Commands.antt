-- ===== src/Cli/Policy/Commands.antt =====
-- apps/cli/src/permissions/commands.ts: the commands that change and show the policy. What they
-- print besides the users is left out.
use tbridge.Base.{String, List, map}
use tbridge.Cli.Policy.{
  AccessMode, trusted, blocked, TrustedUserPolicy, Policies, load_policy, set_user_access,
  remove_user_access,
}

unfoldable pub allow_user : Policies → String → String → Policies
allow_user p user now = set_user_access p user trusted now

unfoldable pub deny_user : Policies → String → String → Policies
deny_user p user now = set_user_access p user blocked now

unfoldable pub forget_user : Policies → String → Policies
forget_user p user = remove_user_access p user

-- The users that `showPolicy` lists, with what it says of each and when that was set.
unfoldable pub show_policy : Policies → List (String × (AccessMode × String))
show_policy p =
    map (λ (i : String × TrustedUserPolicy). (i.0, (i.1.access, i.1.updated_at))) (load_policy p)
