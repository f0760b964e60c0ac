-- ===== src/Worker/Execute/Payload.antt =====
-- What `remote_payload` tells a host.
use ctfdpp.Base.{◌≡◌, refl, ◌⊎◌, inl, inr, none, String, ◌≢◌, true}
use ctfdpp.Base.Json.{Value, object, get_member, get_field, get_field-remove_field}
use ctfdpp.Remote.{
  RemoteOperation, ensure_instance, flag_value_of, validate_flag_value, flag_allowed,
}
use ctfdpp.Runtime.{Env}
use ctfdpp.Worker.Claims.{CommandRow}
use ctfdpp.Worker.Transitions.{InstanceRow}
use ctfdpp.Worker.Execute.{remote_payload, without_flag}

flagless :
    (operation : RemoteOperation) (v : Value)
    → operation ≢ ensure_instance
    → get_member "flag_value" (without_flag operation v) ≡ none
unfolding get_member
flagless ensure_instance v h = absurd (h refl)
flagless operation (object fs) h = get_field-remove_field "flag_value" "flag_value" fs
flagless operation v h = refl

-- A startup tells its host the flag of the deployment as it stands. An operation that is not a
-- startup tells the host no flag, so that the check on its request lets it pass.
pub remote_payload-flag :
    (env : Env) (command : CommandRow) (row : InstanceRow) (operation : RemoteOperation)
    (reason : String)
    → let payload = remote_payload env command row operation reason in
      ((operation ≡ ensure_instance)
        × (flag_value_of payload ≡ get_member "flag_value" row.deployment_snapshot))
      ⊎ ((operation ≢ ensure_instance)
          × (flag_value_of payload ≡ none)
          × (validate_flag_value operation payload ≡ true))
unfolding remote_payload get_member get_field validate_flag_value flag_allowed
remote_payload-flag env command row ensure_instance reason = inl (refl, refl)
remote_payload-flag env command row operation reason =
    let e = flagless operation row.deployment_snapshot (λ e. cc) in inr ((λ e. cc), e, rw e)
