-- ===== src/Server/Requests.antt =====
-- Requests one after another, as the event loop of src/cli/ssm_server.cc hands them to
-- request_handler.
pub mod Good
use vaultine.Prelude.{Bytes, List, [], ◌∷◌}
use vaultine.World.{Env, World}
use vaultine.Exec.{Result, value, fail}
use vaultine.Ssm.Handle.{Disk}
use vaultine.Server.{JsonCpp, Request, Reply, Outcome, replied, terminated}
use vaultine.Server.Dispatch.{request_handler}

-- An exception that leaves a handler ends the process.
abbrev pub unless_terminated : (World → World) → Result Outcome Reply × World → World
unless_terminated rest (value r, w) = rest w
unless_terminated rest (fail (replied r), w) = rest w
unless_terminated rest (fail terminated, w) = w

module _ {Value : Type 0} (json : JsonCpp Value) (disk : Disk) (api_key : Bytes) where
  unfoldable pub serve : List Request → Env → World → World
  serve [] e w = w
  serve (req ∷ reqs) e w =
      unless_terminated (serve reqs e) (request_handler json disk api_key req e w)
