-- ===== src/Guards/Requests.antt =====
-- Requests and who they come from: what the guards of `apps/api/src/common/guards` read of an
-- Express request, with `resourceOf` of `permission.guard.ts`, and `AuthenticatedUser` of
-- `apps/api/src/auth/jwt-payload.interface.ts`.
use Prim.Native.Char.{code}
use Prim.Native.String.{◌++◌}
use skolara.Prelude.{ℕ, String, Bool, true, false, Option, none, some, ◌==◌, or_else, if◌then◌else◌}
use skolara.Auth.{Role, Token}
use skolara.RoleTemplates.Capabilities.{CapabilityAction, read, write}

pub data Method : Type 0 where
  get head post put patch delete : Method

-- The id of an account, or `api-key:…`.
pub data PrincipalId : Type 0 where
  account api_key : ℕ → PrincipalId

-- The `user` that a guard sets on the request.
pub record AuthenticatedUser : Type 0 where
  pub id : PrincipalId
  pub role : Role
  pub school_id : Option ℕ

-- A request as it arrives: whether the context is "http", the path of the route, and the two headers.
pub record Request : Type 0 where
  pub is_http : Bool
  pub method : Method
  pub route_path : Option String
  pub path : String
  pub base_url : String
  pub authorization : Option Token
  pub x_api_key : Option Token

abbrev pub is_get : Method → Bool
is_get get = true
is_get _ = false

abbrev pub action_of : Method → CapabilityAction
action_of get = read
action_of head = read
action_of _ = write

-- What comes before the first `c`: `split(c)[0]`.
unfoldable pub before : ℕ → String → String
before c String.[] = String.[]
before c (String.◌∷◌ x s) =
    let rest = before c s in if code x == c then String.[] else String.◌∷◌ x rest

-- The first piece that is not empty: `split(c).filter(Boolean)[0]`.
unfoldable pub first_piece : ℕ → String → Option String
unfolding before
first_piece c String.[] = none
first_piece c (String.◌∷◌ x s) =
    let rest = first_piece c s in if code x == c then rest else some (before c (String.◌∷◌ x s))

unfoldable pub resource_of : Request → Option String
unfolding first_piece before
resource_of request =
    first_piece b'/' (before b'?' (request.base_url ++ or_else request.route_path request.path))
