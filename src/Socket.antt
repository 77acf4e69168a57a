-- ===== src/Socket.antt =====
-- common/socketio/server.py: who may connect. The set of sessions that are online, in Redis, is a
-- parameter; `disconnect` takes an arbitrary member out of it.
use git_hub_repository_resea.Base.{
  ℕ, String, Bool, true, false, Option, none, some, ◌==◌, truthy, if◌then◌else◌,
}
use git_hub_repository_resea.Exec.{Exec, pure, try_else, ◌>>◌}
use git_hub_repository_resea.Redis.{Server}
use git_hub_repository_resea.Security.Tokens.{Jwt, TokenSettings, Accounts, jwt_authentication}

pub record Auth : Type 0 where
  pub session_uuid : Option String
  pub token : Option String

pub record Online (R : Type 0) : Type 0 where
  pub add : String → Exec R Unit
  pub pop : Exec R Unit

module _ {R : Type 0} (redis : Server R String) (jwt : Jwt) (settings : TokenSettings)
    (accounts : Accounts R) (online : Online R) (no_auth_marker : String) where
  unfoldable pub connect_with : ℕ → String → String → Exec R Bool
  connect_with now session_uuid token =
      if token == no_auth_marker
      then online.add session_uuid >> pure true
      else try_else (jwt_authentication redis jwt settings accounts now token) (λ e. pure false)
          (λ user. online.add session_uuid >> pure true)

  -- `if not token or not session_uuid`
  abbrev connect_given : ℕ → Option String → Option String → Exec R Bool
  unfolding connect_with
  connect_given now (some token) (some session_uuid) =
      if truthy token
      then (if truthy session_uuid then connect_with now session_uuid token else pure false)
      else pure false
  connect_given now _ _ = pure false

  unfoldable pub connect : ℕ → Option Auth → Exec R Bool
  unfolding connect_given
  connect now none = pure false
  connect now (some auth) = connect_given now auth.token auth.session_uuid

  unfoldable pub disconnect : Exec R Unit
  disconnect = online.pop
