-- ===== src/Ssm/Calls/Spec.antt =====
-- What the calls of the public functions of src/ssm.cc promise: a table from user names and names of
-- secrets to secrets, and what each call does to it if it returns SSM_OK.
use vaultine.Prelude.{Bytes, Bool, true, false, ◌&&◌, Option, none, List, [], ◌∷◌, if◌then◌else◌}
use vaultine.World.{Env, World}
use vaultine.Ssm.Secrets.{StoreRequest}
use vaultine.Ssm.Secrets.Store.{meets}
use vaultine.Ssm.Calls.{Call, user_delete, secret_store, secret_delete, perform, run}

-- The secret of a user under a name.
abbrev pub SecretTable : Type 0
SecretTable = Bytes → Bytes → Option Bytes

abbrev pub put : StoreRequest → SecretTable → SecretTable
put r s username name =
    if meets username r.username && meets name r.name then r.private_key else s username name

abbrev pub drop_secret : Option Bytes → Option Bytes → SecretTable → SecretTable
drop_secret u n s username name = if meets username u && meets name n then none else s username name

abbrev pub drop_user : Option Bytes → SecretTable → SecretTable
drop_user u s username name = if meets username u then none else s username name

-- Three calls change the table; the others leave it, those that give out new keys or passwords too.
abbrev pub effect : Call → SecretTable → SecretTable
effect (secret_store r) s = put r s
effect (secret_delete u n) s = drop_secret u n s
effect (user_delete u p) s = drop_user u s
effect c s = s

-- A call that does not return SSM_OK has no effect.
abbrev pub applied : Call → Bool → SecretTable → SecretTable
applied c true s = effect c s
applied c false s = s

unfoldable pub specified : List (Call × Bool) → SecretTable → SecretTable
specified [] s = s
specified ((c, returned_ok) ∷ rest) s = specified rest (applied c returned_ok s)

-- The calls with what they return.
unfoldable pub answers : List Call → Env → World → List (Call × Bool)
answers [] e w = []
answers (c ∷ cs) e w = (c, (perform c e w).0) ∷ answers cs e (run c e w)
