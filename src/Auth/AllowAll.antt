-- ===== src/Auth/AllowAll.antt =====
-- broker/hooks/auth/allow_all.go: the hook that lets every client do everything.
use mqtt_protocol_v.Common.{Bool, true, false}
use mqtt_protocol_v.Server.Hooks.{Method, Hook, hook_base}

-- `Provides`
unfoldable pub allow_provides : Method → Bool
allow_provides Method.connect_authenticate = true
allow_provides Method.acl_check = true
allow_provides method = false

-- `AllowHook`
unfoldable pub allow_hook : {S C : Type 0} → Hook S C
unfolding allow_provides
allow_hook = record hook_base {
  provides = allow_provides;
  connect_authenticate = λ cl pk. true;
  acl_check = λ cl topic write. true;
}
