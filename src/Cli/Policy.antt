-- ===== src/Cli/Policy.antt =====
-- apps/cli/src/permissions/policy.ts: who may join without being asked about.
--
-- The policy file is a value: there is none, or one without the field `users`, or one with it. The
-- object `DEFAULT_POLICY` is shared with every policy that `loadPolicy` makes of a missing file or
-- field, and `setUserAccess` and `removeUserAccess` change it then. Reading and writing succeed.
-- The list of `users` holds the own properties of that object: what it inherits has no `access`.
pub mod Decisions
pub mod Commands
mod Tests
use tbridge.Base.{
  ℕ, String, ◌&&◌, not, Option, none, some, List, [], if◌then◌else◌, get, set, delete, has, ◌==◌,
  string_eq,
}

pub data AccessMode : Type 0 where
  trusted blocked : AccessMode

pub record TrustedUserPolicy : Type 0 where
  pub access : AccessMode
  pub updated_at : String

-- The reason of each is a fixed text about the user.
pub data PolicyDecision : Type 0 where
  asks allows denies : PolicyDecision

abbrev Users : Type 0
Users = List (String × TrustedUserPolicy)

pub record Policies : Type 0 where
  pub file : Option (Option (List (String × TrustedUserPolicy)))
  pub default_users : List (String × TrustedUserPolicy)

-- The `users` of `loadPolicy`.
unfoldable pub load_policy : Policies → List (String × TrustedUserPolicy)
load_policy p = elim p.file [ some (some users) ↦ users | _ ↦ p.default_users ]

-- `savePolicy` of the changed users; they are the default's where the policy shares them.
unfoldable pub save_policy : Policies → List (String × TrustedUserPolicy) → Policies
save_policy p users = elim p.file [
  | some (some old) ↦ record p { file = some (some users) }
  | _ ↦ record { file = some (some users); default_users = users }
]

-- `policy.users[userId] = …`. For the id `__proto__` this sets the object's prototype, which is not
-- saved, unless the file that was read has such a user.
unfoldable pub put_user :
    List (String × TrustedUserPolicy)
    → String
    → TrustedUserPolicy
    → List (String × TrustedUserPolicy)
put_user users user u =
    if (user == "__proto__") && not (has user users) then users else set user u users

unfoldable pub set_user_access : Policies → String → AccessMode → String → Policies
set_user_access p user access now =
    save_policy p (put_user (load_policy p) user (record { access = access; updated_at = now }))

unfoldable pub remove_user_access : Policies → String → Policies
remove_user_access p user = save_policy p (delete user (load_policy p))

abbrev pub decision : Option TrustedUserPolicy → PolicyDecision
decision none = asks
decision (some u) = elim u.access [ blocked ↦ denies | trusted ↦ allows ]

unfoldable pub decide_access : Policies → String → PolicyDecision
decide_access p user = decision (get user (load_policy p))
